-- ===== src/Net/Text/Laws.antt =====
-- Printed numbers have the value that was printed.
use kssio.Prelude.{
  ℕ, zero, suc, ◌+◌, ◌-◌, ◌*◌, ◌/◌, ◌%◌, ◌<◌, ◌≡◌, refl, ◌∙◌, [], ◌∷◌, ◌++◌, arith, length,
  replicate, Text,
}
use kssio.Net.Text.{digit_char, digits, print, print_padded}

-- The number that decimal digits spell behind `v`.
abbrev pub value : ℕ → Text → ℕ
value v [] = v
value v (c ∷ s) = value (v * 10 + (c - b'0')) s

value-digits : (fuel n : ℕ) (acc : Text) → n < fuel → value 0 (digits fuel 10 n acc) ≡ value n acc
unfolding digits
value-digits zero n acc h = absurd (omega arith)
value-digits (suc fuel) n acc h =
    ground (arith, value-digits fuel (n / 10) (digit_char (n % 10) ∷ acc))

value-zeros : (k : ℕ) (s : Text) → value 0 (replicate k b'0' ++ s) ≡ value 0 s
value-zeros zero s = refl
value-zeros (suc k) s = value-zeros k s

-- A padded number spells the number, so two that are printed alike are the same.
pub value-print_padded : (width n : ℕ) → value 0 (print_padded 10 width n) ≡ n
unfolding print_padded
value-print_padded width n =
    value-zeros (width - length (print 10 n)) (print 10 n) ∙ value-digits (suc n) n [] (omega arith)
