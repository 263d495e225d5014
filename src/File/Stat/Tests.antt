-- ===== src/File/Stat/Tests.antt =====
-- Concrete questions about a path.
use kssio.Prelude.{refl, arith, ℕ}
use kssio.File.Stat.{done, Sys, true, Bool, codes, Text}
use kssio.File.Stat.Kinds.{sock, mode_of, Answers, told_by_kind}

-- A system with one socket, readable by all.
abbrev socket_only : Text → Bool → Sys ℕ
socket_only path follow = done (mode_of sock 0o644)

told_by_kind_example : Answers socket_only (codes "/run/x") true sock
told_by_kind_example =
    told_by_kind socket_only (codes "/run/x") true 0o644 (cc) (omega arith) sock refl
