-- ===== src/Math/Word/Laws.antt =====
-- The loop of the case POWER in `op` of Src/math.c.
use winzsh.Prelude.{ℕ, zero, suc, ◌+◌, ◌*◌, ◌/◌, ◌%◌, ◌^◌, ◌<◌, ◌≡◌, ◌∙◌, sym, ap, false, arith}
use native.Mathlib.Nat.{add-mul-mod_self_left, pow-zero, pow-suc}
use winzsh.Number.{word_mod, is_negative}
use winzsh.Math.Word.{value, power_loop, raised}

split-mul : (r w q y : ℕ) → (r + w * q) * y ≡ r * y + w * (q * y)
split-mul r w q y = grind arith

-- A factor may be reduced first.
mod-mul : (x y : ℕ) → (x % word_mod) * y % word_mod ≡ x * y % word_mod
mod-mul x y =
    let r = x % word_mod in
    let q = x / word_mod in
    let e : x ≡ r + word_mod * q = omega arith in
    let p : x * y ≡ r * y + word_mod * (q * y) =
      ap (λ (z : ℕ). z * y) e ∙ split-mul r word_mod q y in
    sym (ap (λ (z : ℕ). z % word_mod) p ∙ add-mul-mod_self_left (r * y) word_mod (q * y))

next_factor : (c a p : ℕ) → c * a * p ≡ c * (p * a)
next_factor c a p = grind arith

power_loop_lem : (b a c : ℕ) → c < word_mod → power_loop b a c ≡ c * a ^ b % word_mod
unfolding power_loop
power_loop_lem zero a c h = rw (pow-zero a) (omega (arith, h))
power_loop_lem (suc b) a c h =
    power_loop_lem b a (c * a % word_mod) (omega arith)
    ∙ mod-mul (c * a) (a ^ b)
    ∙ ap (λ (z : ℕ). z % word_mod)
        (next_factor c a (a ^ b) ∙ ap (λ (z : ℕ). c * z) (sym (pow-suc a b)))

-- For an exponent that is not negative, `**` is the power, on 32 bits.
pub raised_lem : (a b : ℕ) → b < 2 ^ 31 → raised a b ≡ value (a ^ b % word_mod)
unfolding raised
raised_lem a b h =
    rw (positive b h)
      (ap value (power_loop_lem b a 1 (omega arith) ∙ ap (λ (z : ℕ). z % word_mod) (omega arith)))
  where
    positive : (b : ℕ) → b < 2 ^ 31 → is_negative b ≡ false
    positive b h = ground arith
