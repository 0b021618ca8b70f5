-- ===== src/Nvlist/Format/Signed.antt =====
-- Numbers with a sign, as words in two's complement.
use prometheus_zfs_exporter.Base.{
  ℕ, ◌+◌, ◌-◌, ◌<◌, ◌≡◌, refl, ap, arith, ℤ, pos, negsuc, List, [], ◌∷◌, All, map, ltb,
  if◌then◌else◌, lt→ltb, le→not-ltb, length,
}

-- The word for a number, of all the words below `modulus`.
abbrev pub twos : ℕ → ℤ → ℕ
twos modulus (pos n) = n
twos modulus (negsuc n) = modulus - 1 - n

-- From `- half` up to and without `half`.
abbrev pub InHalf : ℕ → ℤ → Type 0
InHalf half (pos n) = n < half
InHalf half (negsuc n) = n < half

-- The sign comes back.
pub signed-twos :
    (half modulus : ℕ) (z : ℤ)
    → modulus ≡ half + half
    → InHalf half z
    → (if ltb (twos modulus z) half
        then pos (twos modulus z)
        else negsuc (modulus - twos modulus z - 1))
      ≡ z
signed-twos half modulus (pos n) e h = rw (lt→ltb n half h) refl
signed-twos half modulus (negsuc n) e h =
    rw (le→not-ltb (modulus - 1 - n) half (omega (arith, e, h))) (ap negsuc (omega (arith, e, h)))

pub twos_lt :
    (half modulus : ℕ) (z : ℤ) → modulus ≡ half + half → InHalf half z → twos modulus z < modulus
twos_lt half modulus (pos n) e h = omega (arith, e, h)
twos_lt half modulus (negsuc n) e h = omega (arith, e, h)

-- And of a list of them, by a reader `f` of single words.
pub map-twos :
    (half modulus : ℕ) (f : ℕ → ℤ) (zs : List ℤ)
    → ((z : ℤ) → InHalf half z → f (twos modulus z) ≡ z)
    → All (InHalf half) zs
    → map f (map (twos modulus) zs) ≡ zs
map-twos half modulus f [] back h = refl
map-twos half modulus f (z ∷ zs) back h = λ i. back z h.0 i ∷ map-twos half modulus f zs back h.1 i

pub All-twos :
    (half modulus : ℕ) (zs : List ℤ)
    → modulus ≡ half + half
    → All (InHalf half) zs
    → All (λ n. n < modulus) (map (twos modulus) zs)
All-twos half modulus [] e h = tt
All-twos half modulus (z ∷ zs) e h = (twos_lt half modulus z e h.0, All-twos half modulus zs e h.1)

pub length-twos : (modulus : ℕ) (zs : List ℤ) → length (map (twos modulus) zs) ≡ length zs
length-twos modulus [] = refl
length-twos modulus (z ∷ zs) = omega (arith, length-twos modulus zs)
