-- ===== src/Net/Socket/Search.antt =====
-- Which port a search finds, and what becomes of the socket.
use kssio.Prelude.{
  ◌∷◌, ◌^◌, ap, ◌∙◌, inr, ==_iff, ◌==◌, inl, Option-cases, Bool-cases, ◌⊎◌, ℕ, zero, suc, ◌+◌, ◌-◌,
  ◌≤◌, ◌<◌, ◌≡◌, ◌≢◌, refl, arith,
}
use kssio.Prelude.Int.{pos}
use kssio.Net.Socket.{
  default_addr, ltb, [], true, false, leb_ℤ, finish_search, done, Text, List, verify_port_number,
  codes, system_error, thrown, ok, none, af_inet6, Result, some, Exception, Option, Bool, SockAddr,
  SocketEvent, opened, shut_down, closed, attempt_to_bind, at_port, bind_loop, bind_search,
  bind_to_port, find_next_available_port, next_available_port, af_inet, eaddrinuse, unavailable,
  is_in_use,
}

module _ (big : Bool) (bind : SockAddr → Option ℕ) (addr : SockAddr) where
  abbrev AllInUse : ℕ → ℕ → Type 0
  AllInUse first p = (q : ℕ) → first ≤ q → q < p → bind (at_port big bind addr q) ≡ some eaddrinuse

  -- How a search of the ports from `first` to `last` ends: with the first port whose answer is not
  -- EADDRINUSE, which is either bound or reported; or with `failure`, when all are in use.
  pub data Ends (failure : Exception) (first last : ℕ) (r : Result (ℕ × SockAddr)) : Type 0 where
    bound :
        (p : ℕ)
        → first ≤ p
        → p ≤ last
        → AllInUse first p
        → bind (at_port big bind addr p) ≡ none
        → r ≡ ok (p, at_port big bind addr p)
        → Ends failure first last r
    refused :
        (p e : ℕ)
        → first ≤ p
        → p ≤ last
        → AllInUse first p
        → e ≢ eaddrinuse
        → bind (at_port big bind addr p) ≡ some e
        → r ≡ thrown (system_error e (codes "bind"))
        → Ends failure first last r
    exhausted : AllInUse first (last + 1) → r ≡ thrown failure → Ends failure first last r

module _ (big : Bool) (bind : SockAddr → Option ℕ) where
  AllInUse-down :
      (addr : SockAddr) (first p : ℕ)
      → bind (at_port big bind addr first) ≡ some eaddrinuse
      → AllInUse big bind addr (first + 1) p
      → AllInUse big bind addr first p
  AllInUse-down addr first p used all q h1 h2 = elim (Bool-cases (q == first)) [
    | inl e ↦ rw ((==_iff q first).0 e) used
    | inr ne ↦ all q (ground arith) h2
  ]

  -- One more port in use before the ports of a search.
  Ends-later :
      (addr : SockAddr) (failure : Exception) (first last : ℕ) (r : Result (ℕ × SockAddr))
      → bind (at_port big bind addr first) ≡ some eaddrinuse
      → Ends big bind (at_port big bind addr first) failure (first + 1) last r
      → Ends big bind addr failure first last r
  Ends-later addr failure first last r used (bound p l h all b e) =
      bound p (omega arith) h (AllInUse-down addr first p used all) b e
  Ends-later addr failure first last r used (refused p x l h all ne b e) =
      refused p x (omega arith) h (AllInUse-down addr first p used all) ne b e
  Ends-later addr failure first last r used (exhausted all e) =
      exhausted (AllInUse-down addr first (last + 1) used all) e

  abbrev IsSupported : SockAddr → Type 0
  IsSupported addr = (addr.sa_family ≡ af_inet) ⊎ (addr.sa_family ≡ af_inet6)

  attempt_supported :
      (port : ℕ) (addr : SockAddr)
      → IsSupported addr
      → attempt_to_bind big bind port addr ≡ elim (bind (at_port big bind addr port)) [
        | none ↦ ok (port, at_port big bind addr port)
        | some errno ↦ thrown (system_error errno (codes "bind"))
      ]
  unfolding attempt_to_bind
  attempt_supported port addr fam = ground arith

  bind_loop-Ends :
      (failure : Exception) (rounds first last : ℕ) (addr : SockAddr)
      → IsSupported addr
      → first + rounds ≡ last + 1
      → Ends big bind addr failure first last (bind_loop big bind failure rounds first addr)
  unfolding bind_loop is_in_use
  bind_loop-Ends failure zero first last addr fam e =
      exhausted (λ q h1 h2. absurd (omega arith)) refl
  bind_loop-Ends failure (suc rounds) first last addr fam e =
      elim (Option-cases (bind (at_port big bind addr first))) [
        | inl free ↦
            bound first (omega arith) (omega arith) (λ q h1 h2. absurd (omega arith)) free
              (rw (attempt_supported first addr fam, free))
        | inr (x, taken) ↦ elim (Bool-cases (x == eaddrinuse)) [
          | inl used ↦
              rw (attempt_supported first addr fam, taken, used)
                (Ends-later addr failure first last _
                  (taken ∙ ap some ((==_iff x eaddrinuse).0 used))
                  (bind_loop-Ends failure rounds (first + 1) last (at_port big bind addr first) fam
                    (omega arith)))
          | inr other ↦
              refused first x (omega arith) (omega arith) (λ q h1 h2. absurd (omega arith))
                (ground arith) taken (rw (attempt_supported first addr fam, taken, other))
        ]
      ]

verify_ok : (name : Text) (p : ℕ) → 0 < p → p ≤ 65535 → verify_port_number name (pos p) ≡ ok tt
unfolding verify_port_number
verify_ok name p h1 h2 = ground arith

-- Asked for the next available port of a range within 1 to 65535, with a supported address,
-- bindToPort returns the first port of the range that is not in use if `bind` takes it, and
-- the error of `bind` there if not; if every port is in use it throws EADDRINUSE. No port of the
-- range before the result is skipped.
pub bind_to_port-Ends :
    (big : Bool) (bind : SockAddr → Option ℕ) (sock first last addr_len : ℕ) (addr : SockAddr)
    → IsSupported big bind addr
    → 0 < sock
    → addr_len < 2 ^ 32
    → 0 < first
    → first ≤ last
    → last ≤ 65535
    → Ends big bind addr (unavailable first last) first last (
        bind_to_port big bind
          (pos sock)
          next_available_port
          (some addr)
          addr_len
          (pos first)
          (pos last))
unfolding bind_to_port bind_search
bind_to_port-Ends big bind sock first last addr_len addr fam hs hl h1 h2 h3 =
    let a : leb_ℤ (pos sock) (pos 0) ≡ false = ground arith in
    let b : ltb addr_len (2 ^ 32) ≡ true = ground arith in
    let c : leb_ℤ (pos first) (pos last) ≡ true = ground arith in
    rw
      (
        a,
        b,
        verify_ok (codes "startingPort") first h1 (omega arith),
        verify_ok (codes "endingPort") last (omega arith) h3,
        c,
      )
      (bind_loop-Ends big bind (unavailable first last) (last + 1 - first) first last addr fam
        (omega arith))

-- How a search ends, with what has happened to the socket.
abbrev SearchResult : ℕ → ℕ → Result ℕ × List SocketEvent → Type 0
SearchResult first last out =
    ((p : ℕ) × (out.0 ≡ ok p)
      × (first ≤ p)
      × (p ≤ last)
      × (out.1 ≡ opened ∷ shut_down ∷ closed ∷ []))
    ⊎ ((e : Exception) × (out.0 ≡ thrown e) × (out.1 ≡ opened ∷ []))

finish_search_lem :
    (big : Bool) (bind : SockAddr → Option ℕ) (addr : SockAddr) (failure : Exception)
    (first last : ℕ) (r : Result (ℕ × SockAddr))
    → Ends big bind addr failure first last r
    → SearchResult first last (finish_search (pos first) (pos last) r)
unfolding finish_search
finish_search_lem big bind addr failure first last r (bound p l h all b e) =
    rw e (inl (p, ground arith, l, h, refl))
finish_search_lem big bind addr failure first last r (refused p x l h all ne b e) =
    rw e (inr (system_error x (codes "bind"), refl, refl))
finish_search_lem big bind addr failure first last r (exhausted all e) =
    rw e (inr (failure, refl, refl))

-- The port found by findNextAvailablePort lies in the range, and the socket that the function
-- opens is shut down and closed exactly if the search succeeds: on an exception the socket stays
-- open.
pub find_next_available_port_events :
    (big : Bool) (bind : SockAddr → Option ℕ) (sock first last : ℕ)
    → 0 < sock
    → 0 < first
    → first ≤ last
    → last ≤ 65535
    → let (r, events) = find_next_available_port big (done sock) bind (pos first) (pos last) in
      ((p : ℕ) × (r ≡ ok p)
        × (first ≤ p)
        × (p ≤ last)
        × (events ≡ opened ∷ shut_down ∷ closed ∷ []))
      ⊎ ((e : Exception) × (r ≡ thrown e) × (events ≡ opened ∷ []))
unfolding find_next_available_port
find_next_available_port_events big bind sock first last hs h1 h2 h3 =
    finish_search_lem big bind default (unavailable first last) first last _
      (bind_to_port-Ends big bind sock first last 0 default (inl refl) hs (omega arith) h1 h2 h3)
  where
    default : SockAddr
    default = default_addr big bind
