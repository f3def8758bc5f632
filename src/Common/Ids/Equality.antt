-- ===== src/Common/Ids/Equality.antt =====
-- Ids as keys of a hash table: what makes two ids equal, and that equal ids have one hash.
use meanwhile.Base.{ℕ, ◌≡◌, refl, ap, arith, true, none, some, List, [], ◌∷◌}
use mathlib.Core.Logic.{◌↔◌}
use meanwhile.Basic.{Str}
use meanwhile.Common.Rules.{strdup}
use meanwhile.Common.Ids.{
  IdBlock, AwareIdBlock, same_bytes, streq, hash_user, id_block_hash, id_block_equal,
  id_block_clone, aware_id_block_equal, aware_id_block_hash, aware_id_block_clone,
}

same_bytes→eq : (xs ys : List ℕ) → same_bytes xs ys ≡ true → xs ≡ ys
same_bytes→eq [] [] h = refl
same_bytes→eq [] (y ∷ ys) h = cc
same_bytes→eq (x ∷ xs) [] h = cc
same_bytes→eq (x ∷ xs) (y ∷ ys) h = ground (arith, same_bytes→eq xs ys)

same_bytes_refl : (xs : List ℕ) → same_bytes xs xs ≡ true
same_bytes_refl [] = refl
same_bytes_refl (x ∷ xs) = ground (arith, same_bytes_refl xs)

pub streq_iff : (a b : Str) → (streq a b ≡ true) ↔ (strdup a ≡ strdup b)
unfolding streq
streq_iff none none = (λ h. refl, λ h. refl)
streq_iff none (some ds) = (λ h. cc, λ h. cc)
streq_iff (some cs) none = (λ h. cc, λ h. cc)
streq_iff (some cs) (some ds) = (λ h. ap some (same_bytes→eq _ _ h), λ h. back _ _ h)
  where
    back : (xs ys : List ℕ) → some xs ≡ some ys → same_bytes xs ys ≡ true
    back xs ys h = let e : xs ≡ ys = cc in rw e (same_bytes_refl ys)

-- Two ids are equal exactly when their copies are.
pub id_block_equal_iff :
    (to a b : IdBlock) → (id_block_equal a b ≡ true) ↔ (id_block_clone to a ≡ id_block_clone to b)
unfolding id_block_equal id_block_clone
id_block_equal_iff to a b = (
  λ h. ground (arith, (streq_iff a.user b.user).0, (streq_iff a.community b.community).0),
  λ h. ground (arith, (streq_iff a.user b.user).1, (streq_iff a.community b.community).1),
)

-- mwAwareIdBlock_equal is true of two ids exactly when mwAwareIdBlock_clone makes the same of
-- both.
pub aware_id_block_equal_iff :
    (to a b : AwareIdBlock)
    → (aware_id_block_equal a b ≡ true) ↔ (aware_id_block_clone to a ≡ aware_id_block_clone to b)
unfolding aware_id_block_equal aware_id_block_clone
aware_id_block_equal_iff to a b = (
  λ h. ground (arith, (streq_iff a.user b.user).0, (streq_iff a.community b.community).0),
  λ h. ground (arith, (streq_iff a.user b.user).1, (streq_iff a.community b.community).1),
)

hash_user-strdup :
    (g_str_hash : List ℕ → ℕ) (a b : Str)
    → streq a b ≡ true
    → hash_user g_str_hash a ≡ hash_user g_str_hash b
unfolding hash_user streq
hash_user-strdup g none none h = refl
hash_user-strdup g none (some ds) h = cc
hash_user-strdup g (some cs) none h = cc
hash_user-strdup g (some cs) (some ds) h = ap (λ (t : List ℕ). some (g t)) (same_bytes→eq _ _ h)

-- Equal ids have the same hash, for every string hash, so they serve as keys.
pub id_block_hash-equal :
    (g_str_hash : List ℕ → ℕ) (a b : IdBlock)
    → id_block_equal a b ≡ true
    → id_block_hash g_str_hash (some a) ≡ id_block_hash g_str_hash (some b)
unfolding id_block_hash id_block_equal
id_block_hash-equal g a b h = ground (arith, hash_user-strdup g a.user b.user)

-- Ids that mwAwareIdBlock_equal is true of have the same mwAwareIdBlock_hash, for every string
-- hash.
pub aware_id_block_hash-equal :
    (g_str_hash : List ℕ → ℕ) (a b : AwareIdBlock)
    → aware_id_block_equal a b ≡ true
    → aware_id_block_hash g_str_hash (some a) ≡ aware_id_block_hash g_str_hash (some b)
unfolding aware_id_block_hash aware_id_block_equal
aware_id_block_hash-equal g a b h = ground (arith, hash_user-strdup g a.user b.user)
