-- ===== src/Net/EaiError/Tests.antt =====
-- Concrete error codes.
use kssio.Prelude.{none, some, codes, ok, thrown, failed, postconditions, ◌≡◌, refl}
use kssio.Prelude.Int.{ℤ, pos, negsuc}
use kssio.Net.EaiError.{Text, Option, eai_system, eai_error_code, message, eai_message}

abbrev strerror : ℤ → Text
strerror n = codes "No such file or directory"

abbrev gai_strerror : ℤ → Option Text
gai_strerror n = some (codes "Name or service not known")

-- An error of the system is told in the words of the system, another one in those of `getaddrinfo`.
of_system :
    message strerror gai_strerror (eai_error_code (pos 2) eai_system) ≡ ok (strerror (pos 2))
unfolding message eai_error_code
of_system = refl

of_name :
    message strerror gai_strerror (eai_error_code (pos 2) (negsuc 1))
    ≡ ok (codes "Name or service not known")
unfolding message eai_error_code eai_message
of_name = refl

of_none :
    message strerror (λ n. none) (eai_error_code (pos 2) (negsuc 1))
    ≡ thrown (failed postconditions)
unfolding message eai_error_code eai_message
of_none = refl
