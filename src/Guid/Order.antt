-- ===== src/Guid/Order.antt =====
-- GUIDs as keys: one order of which the equality is the equality of GUIDs.
use near_object_framework.Common.{
  ℕ, ◌<◌, ◌^◌, ◌≡◌, refl, ◌≢◌, ◌↔◌, ◌⊎◌, inl, inr, true, false, List, [], ◌∷◌, ◌++◌, length, arith,
  ap, sym, ◌∙◌,
}
use near_object_framework.Guid.{
  Guid, IsGuid, bytes_of_16, bytes_of_32, memory, Sign, negative, null, positive, memcmp,
  is_negative, equal_to, less,
}

memcmp_self : (l : List ℕ) → memcmp l l ≡ null
unfolding memcmp
memcmp_self [] = refl
memcmp_self (a ∷ l) = ground (arith, memcmp_self l)

-- Where as many bytes are compared as there are, nothing but the same bytes compares equal.
memcmp_null : (l k : List ℕ) → length l ≡ length k → memcmp l k ≡ null → l ≡ k
unfolding memcmp
memcmp_null [] [] e h = refl
memcmp_null [] (b ∷ k) e h = absurd (omega arith)
memcmp_null (a ∷ l) [] e h = absurd (omega arith)
memcmp_null (a ∷ l) (b ∷ k) e h = ground (arith, memcmp_null l k (omega arith))

memcmp_swap : (l k : List ℕ) → (memcmp l k ≡ positive) ↔ (memcmp k l ≡ negative)
unfolding memcmp
memcmp_swap [] [] = ground arith
memcmp_swap [] (b ∷ k) = ground arith
memcmp_swap (a ∷ l) [] = ground arith
memcmp_swap (a ∷ l) (b ∷ k) = ground (arith, memcmp_swap l k)

memcmp_trans :
    (l k m : List ℕ)
    → length l ≡ length k
    → length k ≡ length m
    → memcmp l k ≡ negative
    → memcmp k m ≡ negative
    → memcmp l m ≡ negative
unfolding memcmp
memcmp_trans [] [] m e f g h = absurd (ground arith)
memcmp_trans [] (b ∷ k) m e f g h = absurd (omega arith)
memcmp_trans (a ∷ l) [] m e f g h = absurd (omega arith)
memcmp_trans (a ∷ l) (b ∷ k) [] e f g h = absurd (omega arith)
memcmp_trans (a ∷ l) (b ∷ k) (c ∷ m) e f g h =
    ground (arith, memcmp_trans l k m (omega arith) (omega arith))

same_16 :
    (x y : ℕ) (r s : List ℕ)
    → x < 2 ^ 16
    → y < 2 ^ 16
    → bytes_of_16 x ++ r ≡ bytes_of_16 y ++ s
    → (x ≡ y) × (r ≡ s)
same_16 x y r s hx hy e = ground arith

same_32 :
    (x y : ℕ) (r s : List ℕ)
    → x < 2 ^ 32
    → y < 2 ^ 32
    → bytes_of_32 x ++ r ≡ bytes_of_32 y ++ s
    → (x ≡ y) × (r ≡ s)
same_32 x y r s hx hy e = ground arith

same_memory : (a b : Guid) → IsGuid a → IsGuid b → memory a ≡ memory b → a ≡ b
unfolding memory
same_memory a b ha hb e =
    let first = same_32 a.data1 b.data1 _ _ ha.fits1 hb.fits1 e in
    let second = same_16 a.data2 b.data2 _ _ ha.fits2 hb.fits2 first.1 in
    let third = same_16 a.data3 b.data3 _ _ ha.fits3 hb.fits3 second.1 in
    ground (arith, first.0, second.0, third)

length-memory : (g : Guid) → IsGuid g → length (memory g) ≡ 16
unfolding memory
length-memory g h = omega (arith, h.eight)

-- Two GUIDs compare in exactly one of three ways.
pub data Compared (a b : Guid) : Type 0 where
  before : less a b ≡ true → equal_to a b ≡ false → less b a ≡ false → a ≢ b → Compared a b
  same : less a b ≡ false → equal_to a b ≡ true → less b a ≡ false → a ≡ b → Compared a b
  after : less a b ≡ false → equal_to a b ≡ false → less b a ≡ true → a ≢ b → Compared a b

Sign-cases : (s : Sign) → (s ≡ negative) ⊎ ((s ≡ null) ⊎ (s ≡ positive))
Sign-cases negative = inl refl
Sign-cases null = inr (inl refl)
Sign-cases positive = inr (inr refl)

-- Of two GUIDs, whose members have their sizes, either one is less than the other or they are equal,
-- never two of these at once; and std::equal_to says that they are equal exactly if they are.
pub less-Compared : (a b : Guid) → IsGuid a → IsGuid b → Compared a b
unfolding less equal_to
less-Compared a b ha hb =
    let there = memcmp (memory a) (memory b) in
    let back = memcmp (memory b) (memory a) in
    let swapped = memcmp_swap (memory a) (memory b) in
    let swapped' = memcmp_swap (memory b) (memory a) in
    elim (Sign-cases there) [
      | inl e ↦
          let e' : back ≡ positive = swapped'.1 e in
          before (rw e) (rw e) (rw e') (λ eq. ground (arith, memcmp_self (memory a), ap memory eq))
      | inr (inl e) ↦
          let eq =
            same_memory a b ha hb (
              memcmp_null (memory a) (memory b) (length-memory a ha ∙ sym (length-memory b hb))
                e) in
          let e' : back ≡ null =
            ap (λ l. memcmp l (memory a)) (sym (ap memory eq)) ∙ memcmp_self (memory a) in
          same (rw e) (rw e) (rw e') eq
      | inr (inr e) ↦
          let e' : back ≡ negative = swapped.0 e in
          after (rw e) (rw e) (rw e') (λ eq. ground (arith, memcmp_self (memory a), ap memory eq))
    ]

negative_of : (s : Sign) → is_negative s ≡ true → s ≡ negative
negative_of negative h = refl
negative_of null h = absurd (ground arith)
negative_of positive h = absurd (ground arith)

-- std::less is transitive on GUIDs whose members have their sizes.
pub less_trans :
    (a b c : Guid)
    → IsGuid a
    → IsGuid b
    → IsGuid c
    → less a b ≡ true
    → less b c ≡ true
    → less a c ≡ true
unfolding less
less_trans a b c ha hb hc ab bc = rw (
    memcmp_trans (memory a) (memory b) (memory c) (length-memory a ha ∙ sym (length-memory b hb))
      (length-memory b hb ∙ sym (length-memory c hc))
      (negative_of (memcmp (memory a) (memory b)) ab)
      (negative_of (memcmp (memory b) (memory c)) bc))
