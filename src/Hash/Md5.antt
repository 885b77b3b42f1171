-- ===== src/Hash/Md5.antt =====
-- `coucal_hash_data` in the builds with MD5 (`HTS_INTHASH_USES_MD5`, `HTS_INTHASH_USES_OPENSSL_MD5`),
-- for hash keys of 32 bits. The digest itself is of OpenSSL or of the embedding program.
use coucal.Base.{
  ℕ, zero, suc, ◌+◌, ◌-◌, ◌≤◌, ◌≡◌, refl, ap, sym, ◌∙◌, inl, inr, Bool-cases, leb, ltb,
  if◌then◌else◌, List, [], ◌∷◌, ◌++◌, length, take, drop, bit_xor, arith, fun_ext,
}
use coucal.Hash.Murmur.{getblock32}
use coucal.Hash.{separate}
use coucal.Run.{Run, ok, ◌>>=◌}
use coucal.State.{Hashkeys}

-- `HashMD5Init`, `HashMD5Update` and `HashMD5Final`. OpenSSL may have no memory for a context.
pub record Md5 : Type 1 where
  pub Context : Type 0
  pub init : Run Context
  pub update : Context → List ℕ → Context
  pub final : Context → List ℕ

-- What the code relies on: updates add up.
pub record Streaming (md5 : Md5) : Type 0 where
  pub update-append :
      (ctx : md5.Context) (a b : List ℕ) → md5.update (md5.update ctx a) b ≡ md5.update ctx (a ++ b)
  pub update-empty : (ctx : md5.Context) → md5.update ctx [] ≡ ctx

-- The digest as hash keys of a machine that is little-endian, "mix mix mix".
unfoldable pub fold_digest : List ℕ → Hashkeys
unfolding getblock32
fold_digest digest = record {
  hash1 = bit_xor (getblock32 digest 0) (getblock32 digest 8);
  hash2 = bit_xor (getblock32 digest 4) (getblock32 digest 12);
}

module _ (md5 : Md5) where
  -- The loop that feeds the data by chunks of 2^28 bytes at most.
  unfoldable pub feed : ℕ → md5.Context → List ℕ → ℕ → md5.Context
  feed zero ctx bytes offset = ctx
  feed (suc fuel) ctx bytes offset =
      let remaining = length bytes - offset in
      let chunk = if leb remaining 0x10000000 then remaining else 0x10000000 in
      let rest =
        feed fuel (md5.update ctx (take chunk (drop offset bytes))) bytes (offset + chunk) in
      if ltb offset (length bytes) then rest else ctx

  -- Every round takes a byte at least.
  unfoldable pub hash_data_md5 : List ℕ → Run Hashkeys
  unfolding feed fold_digest separate
  hash_data_md5 bytes = do
    ctx ← md5.init
    ok (separate (fold_digest (md5.final (feed (length bytes) ctx bytes 0))))

take_prefix : (n : ℕ) (xs : List ℕ) → take n xs ++ drop n xs ≡ xs
take_prefix zero xs = refl
take_prefix (suc n) [] = refl
take_prefix (suc n) (x ∷ xs) = ap (λ r. x ∷ r) (take_prefix n xs)

drop-nil : (n : ℕ) → drop {A = ℕ} n [] ≡ []
drop-nil zero = refl
drop-nil (suc n) = refl

drop-drop : (n o : ℕ) (xs : List ℕ) → drop n (drop o xs) ≡ drop (o + n) xs
drop-drop n zero xs = ap (λ k. drop k xs) (omega arith)
drop-drop n (suc o) [] = drop-nil n ∙ sym (drop-nil (suc o + n))
drop-drop n (suc o) (x ∷ xs) = drop-drop n o xs ∙ ap (λ k. drop k (x ∷ xs)) next
  where
    next : suc (o + n) ≡ suc o + n
    next = omega arith

take-drop : (n o : ℕ) (xs : List ℕ) → take n (drop o xs) ++ drop (o + n) xs ≡ drop o xs
take-drop n o xs =
    ap (λ r. take n (drop o xs) ++ r) (sym (drop-drop n o xs)) ∙ take_prefix n (drop o xs)

length-drop_zero : (o : ℕ) (xs : List ℕ) → length xs ≤ o → drop o xs ≡ []
length-drop_zero zero [] h = refl
length-drop_zero zero (x ∷ xs) h = absurd (omega arith)
length-drop_zero (suc o) [] h = refl
length-drop_zero (suc o) (x ∷ xs) h = length-drop_zero o xs (omega arith)

-- Where updates add up, the loop feeds what one update with all the rest would.
feed_lem :
    (md5 : Md5) (fuel : ℕ) (ctx : md5.Context) (bytes : List ℕ) (offset : ℕ)
    → Streaming md5
    → length bytes ≤ offset + fuel
    → feed md5 fuel ctx bytes offset ≡ md5.update ctx (drop offset bytes)
unfolding feed
feed_lem md5 zero ctx bytes offset s h =
    sym (ap (md5.update ctx) (length-drop_zero offset bytes (omega arith)) ∙ s.update-empty ctx)
feed_lem md5 (suc fuel) ctx bytes offset s h = elim (Bool-cases (ltb offset (length bytes))) [
  | inl more ↦
      let remaining = length bytes - offset in
      let chunk = if leb remaining 0x10000000 then remaining else 0x10000000 in
      rw more (
        feed_lem md5 fuel (md5.update ctx (take chunk (drop offset bytes))) bytes (offset + chunk) s
          (ground arith)
        ∙ s.update-append ctx (take chunk (drop offset bytes)) (drop (offset + chunk) bytes)
        ∙ ap (md5.update ctx) (take-drop chunk offset bytes))
  | inr done ↦ rw done (
      sym (ap (md5.update ctx) (length-drop_zero offset bytes (ground arith)) ∙ s.update-empty ctx))
]

-- Where MD5 adds up its updates, the keys that the loop by chunks gives are those of the digest of the
-- data as a whole, and the loop ends however long the data is.
pub hash_data_md5_lem :
    (md5 : Md5) (bytes : List ℕ)
    → Streaming md5
    → hash_data_md5 md5 bytes
      ≡ (md5.init >>= λ ctx. ok (separate (fold_digest (md5.final (md5.update ctx bytes)))))
unfolding hash_data_md5
hash_data_md5_lem md5 bytes s =
    ap (λ f. md5.init >>= f)
      (fun_ext λ ctx.
        ap (λ x. ok (separate (fold_digest (md5.final x))))
          (feed_lem md5 (length bytes) ctx bytes 0 s (omega arith)))
