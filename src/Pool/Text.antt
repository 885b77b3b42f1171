-- ===== src/Pool/Text.antt =====
-- C strings in a block of bytes: what a key reads, and what writes to the block leave of it.
use coucal.Base.{
  ◌⊎◌, ℕ, zero, suc, ◌+◌, ◌≤◌, ◌<◌, ◌≡◌, refl, ap, sym, ◌∙◌, inl, inr, Bool-cases, ◌==◌,
  if◌then◌else◌, List, [], ◌∷◌, ◌++◌, length, get_or, set, drop, length-set, length-append,
  get_or-set, lt→ltb, ltb, arith, true, false,
}
use coucal.Pool.{cstr, write_bytes, copy_string}
use coucal.Run.{ok, abort, Returns}

-- The bytes of a C string: none is NUL.
abbrev pub IsText : List ℕ → Type 0
IsText [] = Unit
IsText (b ∷ bs) = (0 < b) × IsText bs

pub cstr-IsText : (bs : List ℕ) → IsText (cstr bs)
unfolding cstr
cstr-IsText [] = tt
cstr-IsText (b ∷ bs) = ground (arith, cstr-IsText bs)

pub cstr_text : (bs rest : List ℕ) → IsText bs → cstr (bs ++ 0 ∷ rest) ≡ bs
unfolding cstr
cstr_text [] rest t = refl
cstr_text (b ∷ bs) rest (h, t) = ground (arith, cstr_text bs rest t)

-- A string depends on its bytes and the one behind them.
cstr_congr :
    (xs ys : List ℕ)
    → ((p : ℕ) → p ≤ length (cstr xs) → get_or ys p 0 ≡ get_or xs p 0)
    → cstr ys ≡ cstr xs
unfolding cstr
cstr_congr [] [] h = refl
cstr_congr [] (y ∷ ys) h = ground (arith, h 0)
cstr_congr (x ∷ xs) [] h = ground (arith, h 0)
cstr_congr (x ∷ xs) (y ∷ ys) h = elim (Bool-cases (x == 0)) [
  | inl e ↦ ground (arith, h 0)
  | inr e ↦
      let same : y ≡ x = h 0 (omega arith) in
      let rest = cstr_congr xs ys (λ p le. h (suc p) (rw e (omega arith))) in ground arith
]

pub get_or-drop : (xs : List ℕ) (o p : ℕ) → get_or (drop o xs) p 0 ≡ get_or xs (o + p) 0
get_or-drop xs zero p = ap (λ k. get_or xs k 0) (omega arith)
get_or-drop [] (suc o) p = refl
get_or-drop (x ∷ xs) (suc o) p = get_or-drop xs o p ∙ ap (λ k. get_or (x ∷ xs) k 0) next
  where
    next : suc (o + p) ≡ suc o + p
    next = omega arith

-- A string survives a change that spares its bytes and its NUL.
pub cstr-drop_congr :
    (xs ys : List ℕ) (o : ℕ)
    → ((p : ℕ) → o ≤ p → p ≤ o + length (cstr (drop o xs)) → get_or ys p 0 ≡ get_or xs p 0)
    → cstr (drop o ys) ≡ cstr (drop o xs)
cstr-drop_congr xs ys o h =
    cstr_congr (drop o xs) (drop o ys) (λ p le.
      get_or-drop ys o p ∙ h (o + p) (omega arith) (omega arith) ∙ sym (get_or-drop xs o p))

pub length-write_bytes :
    (block : List ℕ) (pos : ℕ) (bs : List ℕ) → length (write_bytes block pos bs) ≡ length block
unfolding write_bytes
length-write_bytes block pos [] = refl
length-write_bytes block pos (b ∷ bs) =
    length-write_bytes (set block pos b) (pos + 1) bs ∙ length-set block pos b

-- The bytes before and behind the copy stay.
pub get_or-write_bytes_out :
    (block : List ℕ) (pos : ℕ) (bs : List ℕ) (p : ℕ)
    → pos + length bs ≤ length block
    → (p < pos) ⊎ (pos + length bs ≤ p)
    → get_or (write_bytes block pos bs) p 0 ≡ get_or block p 0
unfolding write_bytes
get_or-write_bytes_out block pos [] p fits out = refl
get_or-write_bytes_out block pos (b ∷ bs) p fits out =
    let other : (pos == p) ≡ false = ground arith in
    get_or-write_bytes_out (set block pos b) (pos + 1) bs p (omega (arith, length-set block pos b))
      (elim out [ inl l ↦ inl (omega arith) | inr r ↦ inr (omega arith) ])
    ∙ get_or-set block pos p b 0 (omega arith)
    ∙ ap (λ t. if t then b else get_or block p 0) other

pub get_or-write_bytes :
    (block : List ℕ) (pos : ℕ) (bs : List ℕ) (p : ℕ)
    → pos + length bs ≤ length block
    → p < length bs
    → get_or (write_bytes block pos bs) (pos + p) 0 ≡ get_or bs p 0
unfolding write_bytes
get_or-write_bytes block pos [] p fits h = absurd (omega arith)
get_or-write_bytes block pos (b ∷ bs) zero fits h =
    let here : (pos == pos + 0) ≡ true = ground arith in
    get_or-write_bytes_out (set block pos b) (pos + 1) bs (pos + 0)
      (omega (arith, length-set block pos b)) (inl (omega arith))
    ∙ get_or-set block pos (pos + 0) b 0 (omega arith)
    ∙ ap (λ t. if t then b else get_or block (pos + 0) 0) here
get_or-write_bytes block pos (b ∷ bs) (suc p) fits h =
    ap (λ k. get_or (write_bytes (set block pos b) (pos + 1) bs) k 0) next
    ∙ get_or-write_bytes (set block pos b) (pos + 1) bs p (omega (arith, length-set block pos b))
        (omega arith)
  where
    next : pos + suc p ≡ pos + 1 + p
    next = omega arith

get_or-append_nul :
    (bs : List ℕ) (p : ℕ) → p ≤ length bs → get_or (bs ++ 0 ∷ []) p 0 ≡ get_or bs p 0
get_or-append_nul [] zero h = refl
get_or-append_nul [] (suc p) h = absurd (omega arith)
get_or-append_nul (b ∷ bs) zero h = refl
get_or-append_nul (b ∷ bs) (suc p) h = get_or-append_nul bs p (omega arith)

-- A string that was copied with its NUL is read back.
pub cstr-write_bytes :
    (block : List ℕ) (pos : ℕ) (bs : List ℕ)
    → IsText bs
    → pos + length bs < length block
    → cstr (drop pos (write_bytes block pos (bs ++ 0 ∷ []))) ≡ bs
cstr-write_bytes block pos bs t fits =
    let written = write_bytes block pos (bs ++ 0 ∷ []) in
    let len : length (bs ++ 0 ∷ []) ≡ length bs + 1 = length-append bs (0 ∷ []) in
    cstr_congr (bs ++ 0 ∷ []) (drop pos written) (λ p le.
      get_or-drop written pos p
      ∙ get_or-write_bytes block pos (bs ++ 0 ∷ []) p (omega arith)
          (omega (arith, ap length (cstr_text bs [] t))))
    ∙ cstr_text bs [] t

-- Where a string fits the capacity, its copy byte by byte behind assertions fails none of them, and is
-- the copy of `memcpy`, ending behind the string.
pub copy_string-write_bytes :
    (capacity : ℕ) (block : List ℕ) (pos : ℕ) (bs : List ℕ)
    → pos + length bs ≤ capacity
    → copy_string capacity block pos bs ≡ ok (write_bytes block pos bs, pos + length bs)
unfolding copy_string write_bytes
copy_string-write_bytes capacity block pos [] h = ap (λ k. ok (block, k)) (omega arith)
copy_string-write_bytes capacity block pos (b ∷ bs) h = rw (lt→ltb pos capacity (omega arith)) (
    copy_string-write_bytes capacity (set block pos b) (pos + 1) bs (omega arith)
    ∙ ap (λ k. ok (write_bytes (set block pos b) (pos + 1) bs, k)) next)
  where
    next : pos + 1 + length bs ≡ pos + suc (length bs)
    next = omega arith

-- Where it does not fit, an assertion of the copy fails.
copy_string-overflow :
    (capacity : ℕ) (block : List ℕ) (pos : ℕ) (bs : List ℕ)
    → pos ≤ capacity
    → capacity < pos + length bs
    → copy_string capacity block pos bs ≡ abort
unfolding copy_string
copy_string-overflow capacity block pos [] low h = absurd (omega arith)
copy_string-overflow capacity block pos (b ∷ bs) low h = elim (Bool-cases (ltb pos capacity)) [
  | inl e ↦
      rw e
        (copy_string-overflow capacity (set block pos b) (pos + 1) bs (ground arith) (omega arith))
  | inr e ↦ rw e refl
]

-- A block after the copy of a string to a position, with the position behind it.
pub record Copied (block : List ℕ) (pos : ℕ) (bs : List ℕ) (r : List ℕ × ℕ) : Type 0 where
  pub reads : cstr (drop pos r.0) ≡ bs
  pub spares : (p : ℕ) → (p < pos) ⊎ (pos + length bs + 1 ≤ p) → get_or r.0 p 0 ≡ get_or block p 0
  pub width : length r.0 ≡ length block
  pub next : r.1 ≡ pos + length bs + 1

-- In a block of at least the capacity, from a position that is no greater, the copy of a string with
-- its NUL ends normally just when both fit below the capacity: the string is read back at that
-- position, no byte before or behind it has changed, and the next position is the one behind the NUL.
-- Otherwise an assertion fails.
pub copy_string-Copied :
    (capacity : ℕ) (block : List ℕ) (pos : ℕ) (bs : List ℕ)
    → IsText bs
    → capacity ≤ length block
    → pos ≤ capacity
    → (pos + length bs < capacity
        → Returns (copy_string capacity block pos (bs ++ 0 ∷ [])) (Copied block pos bs))
      × (capacity ≤ pos + length bs → copy_string capacity block pos (bs ++ 0 ∷ []) ≡ abort)
copy_string-Copied capacity block pos bs t wide low =
    let len : length (bs ++ 0 ∷ []) ≡ length bs + 1 = length-append bs (0 ∷ []) in
    (
      λ fits. (
        _,
        copy_string-write_bytes capacity block pos (bs ++ 0 ∷ []) (omega arith),
        record {
          reads = cstr-write_bytes block pos bs t (omega arith);
          spares = λ p out.
              get_or-write_bytes_out block pos (bs ++ 0 ∷ []) p (omega arith)
                (elim out [ inl l ↦ inl l | inr r ↦ inr (omega arith) ]);
          width = length-write_bytes block pos (bs ++ 0 ∷ []);
          next = omega arith;
        },
      ),
      λ full. copy_string-overflow capacity block pos (bs ++ 0 ∷ []) low (omega arith),
    )
