-- ===== src/Service/Clamp.antt =====
-- `max(0.0, min(1.0, x))` of app.py, on IEEE doubles by their bits.
use lite_router.Prelude.{
  ℕ, ◌+◌, ◌-◌, ◌≤◌, ◌<◌, ◌≡◌, refl, Bool, true, false, not, ◌&&◌, ◌||◌, ltb, leb, if◌then◌else◌,
  arith, Bool-cases, inl, inr,
}
use lite_router.Runtime.{Float, zero_float, one_float}

-- the bit of the sign, and the bits without it
abbrev negative : Float → Bool
negative x = leb 0x8000000000000000 x.bits

abbrev magnitude : Float → ℕ
magnitude x = if negative x then x.bits - 0x8000000000000000 else x.bits

abbrev pub is_nan : Float → Bool
is_nan x = ltb 0x7ff0000000000000 (magnitude x)

-- doubles that are no NaN are in the order of their ranks, and the two zeros have the same
abbrev pub rank : Float → ℕ
rank x = if negative x then 0x8000000000000000 - magnitude x else 0x8000000000000000 + magnitude x

-- `a < b`
abbrev pub less : Float → Float → Bool
less a b = not (is_nan a || is_nan b) && ltb (rank a) (rank b)

-- `min(a, b)` and `max(a, b)`, which keep `a` unless `b` is beyond it
abbrev pub min_float : Float → Float → Float
min_float a b = if less b a then b else a

abbrev max_float : Float → Float → Float
max_float a b = if less a b then b else a

unfoldable pub clamp : Float → Float
clamp x = max_float zero_float (min_float one_float x)

-- between 0.0 and 1.0, and no NaN
pub record InUnit (x : Float) : Type 0 where
  pub a_number : is_nan x ≡ false
  pub least : rank zero_float ≤ rank x
  pub greatest : rank x ≤ rank one_float

pub zero_float-InUnit : InUnit zero_float
zero_float-InUnit = record { a_number = refl; least = omega arith; greatest = omega arith }

one_float-InUnit : InUnit one_float
one_float-InUnit = record { a_number = refl; least = omega arith; greatest = omega arith }

less-ranks :
    (a b : Float) → less a b ≡ true → (is_nan a ≡ false) × (is_nan b ≡ false) × (rank a < rank b)
less-ranks a b h = ground arith

max_float-InUnit :
    (m : Float) → is_nan m ≡ false → rank m ≤ rank one_float → InUnit (max_float zero_float m)
max_float-InUnit m n h = elim (Bool-cases (less zero_float m)) [
  | inl e ↦
      rw e (record { a_number = n; least = omega (arith, less-ranks zero_float m e); greatest = h })
  | inr e ↦ rw e zero_float-InUnit
]

-- Whatever the value, infinite and not a number included, the clamped one is between 0 and 1.
pub clamp-InUnit : (x : Float) → InUnit (clamp x)
unfolding clamp
clamp-InUnit x = elim (Bool-cases (less x one_float)) [
  | inl e ↦
      let (n, _, below) = less-ranks x one_float e in rw e (max_float-InUnit x n (omega arith))
  | inr e ↦ rw e (max_float-InUnit one_float refl (omega arith))
]

not_less-ranks :
    (a b : Float) → less a b ≡ false → is_nan a ≡ false → is_nan b ≡ false → rank b ≤ rank a
not_less-ranks a b h n m = ground arith

-- A value between 0 and 1 is kept, up to the sign of zero.
pub clamp-rank : (x : Float) → InUnit x → rank (clamp x) ≡ rank x
unfolding clamp
clamp-rank x u = elim (Bool-cases (less x one_float)) [
  | inl e ↦ rw e (elim (Bool-cases (less zero_float x)) [
    | inl f ↦ rw f refl
    | inr f ↦ rw f (omega (arith, not_less-ranks zero_float x f refl u.a_number, u.least))
  ])
  | inr e ↦ rw e (omega (arith, not_less-ranks x one_float e u.a_number refl, u.greatest))
]
