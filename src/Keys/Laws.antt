-- ===== src/Keys/Laws.antt =====
-- What the table asks of hashing, comparison and duplication of keys, and the default comparison of
-- coucal.c (`strcmp`).
use coucal.Base.{ℕ, ◌≡◌, refl, ap, true, none, some, List, [], ◌∷◌, arith}
use coucal.Keys.{strcmp_equal, hash_text, equal_texts}
use coucal.State.{KeyHandlers}

-- The contract of the handlers: `equals` is an equivalence, `hash` respects it, and `dup` makes an
-- equal key.
pub record KeyLaws (h : KeyHandlers) : Type 0 where
  pub equal_refl : (a : List ℕ) → equal_texts h a a ≡ true
  pub equal_symm : (a b : List ℕ) → equal_texts h a b ≡ equal_texts h b a
  pub equal_trans :
      (a b d : List ℕ)
      → equal_texts h a b ≡ true
      → equal_texts h b d ≡ true
      → equal_texts h a d ≡ true
  pub hash-equal : (a b : List ℕ) → equal_texts h a b ≡ true → hash_text h a ≡ hash_text h b
  pub dup-equal :
      (dup : List ℕ → List ℕ) (a : List ℕ) → h.dup ≡ some dup → equal_texts h (dup a) a ≡ true

strcmp_equal_refl : (a : List ℕ) → strcmp_equal a a ≡ true
unfolding strcmp_equal
strcmp_equal_refl [] = refl
strcmp_equal_refl (x ∷ a) = ground (arith, strcmp_equal_refl a)

-- `strcmp` finds two strings equal just when they are the same.
pub strcmp_equal-eq : (a b : List ℕ) → strcmp_equal a b ≡ true → a ≡ b
unfolding strcmp_equal
strcmp_equal-eq [] [] h = refl
strcmp_equal-eq [] (y ∷ b) h = cc
strcmp_equal-eq (x ∷ a) [] h = cc
strcmp_equal-eq (x ∷ a) (y ∷ b) h = ground (arith, strcmp_equal-eq a b)

strcmp_equal_symm : (a b : List ℕ) → strcmp_equal a b ≡ strcmp_equal b a
unfolding strcmp_equal
strcmp_equal_symm [] [] = refl
strcmp_equal_symm [] (y ∷ b) = refl
strcmp_equal_symm (x ∷ a) [] = refl
strcmp_equal_symm (x ∷ a) (y ∷ b) = ground (arith, strcmp_equal_symm a b)

-- Handlers with no `equals`, for which keys are compared by `strcmp`, keep the laws of keys, if their
-- `dup` copies: with any `hash` handler, or with `coucal_hash_string`.
pub strcmp-KeyLaws :
    (h : KeyHandlers)
    → h.equals ≡ none
    → ((dup : List ℕ → List ℕ) (a : List ℕ) → h.dup ≡ some dup → dup a ≡ a)
    → KeyLaws h
unfolding equal_texts hash_text
strcmp-KeyLaws h eq copies = record {
  equal_refl = λ a. rw eq (strcmp_equal_refl a);
  equal_symm = λ a b. rw eq (strcmp_equal_symm a b);
  equal_trans = λ a b d.
      rw eq (λ p q. rw (strcmp_equal-eq a b p, strcmp_equal-eq b d q) (strcmp_equal_refl d));
  hash-equal = λ a b. rw eq (λ p. ap (hash_text h) (strcmp_equal-eq a b p));
  dup-equal = λ dup a e. rw (eq, copies dup a e) (strcmp_equal_refl a);
}
