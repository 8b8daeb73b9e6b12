-- ===== src/Config/Usable/Sections.antt =====
-- config/loader.go: the lock manager's section, the API keys and erasure coding, once they are accepted.
use mathlib.Core.Path.{subst}
use callfs.Prelude.{
  ℕ, ◌+◌, ◌≤◌, ◌^◌, ◌≡◌, ◌≢◌, ◌⊎◌, inl, inr, refl, sym, arith, ℤ, pos, negsuc, Text, text_eq_iff,
  codes, ltb, Bool, Bool-cases, true, false, not, ◌||◌, List, [], ◌∷◌, All, ok,
}
use callfs.Config.{DlmConfig, ErasureConfig}
use callfs.Config.Validate.{
  require, names, at_least, guard_dlm, byte_length, check_api_keys, fill_erasure, too_many,
}
use callfs.Config.Usable.Guards.{set_text}

-- The lock manager is Redis at an address, or local.
abbrev pub UsableDlm : DlmConfig → Type 0
UsableDlm dlm =
    ((names dlm.type "redis" ≡ true) × (dlm.redis_addr ≢ [])) ⊎ (names dlm.type "local" ≡ true)

pub guard_dlm_ok : (dlm dlm' : DlmConfig) → guard_dlm dlm ≡ ok dlm' → (dlm ≡ dlm') × UsableDlm dlm
unfolding guard_dlm require
guard_dlm_ok dlm dlm' h = elim (Bool-cases (names dlm.type "redis")) [
  | inl a ↦ (ground arith, inl (a, set_text dlm.redis_addr (ground arith)))
  | inr a ↦ (ground arith, inr (ground arith))
]

-- An API key is not the default one and has at least 16 bytes.
abbrev pub GoodKey : Text → Type 0
GoodKey key = (key ≢ codes "default-api-key") × (16 ≤ byte_length key)

pub check_api_keys_ok : (keys : List Text) → check_api_keys keys ≡ ok tt → All GoodKey keys
unfolding check_api_keys require
check_api_keys_ok [] h = tt
check_api_keys_ok (key ∷ keys) h = (
  (λ e. absurd (ground (arith, text_eq_iff key (codes "default-api-key"))), ground arith),
  check_api_keys_ok keys (ground arith),
)

-- Erasure coding has at least two data shards and one parity shard, and at most 256 in all; but a sum of
-- 2 ^ 63 or more, which is negative on 64 bits, is accepted too.
abbrev pub UsableShards : ℤ → ℤ → Type 0
UsableShards (pos d) (pos p) = (2 ≤ d) × (1 ≤ p) × ((d + p ≤ 256) ⊎ (2 ^ 63 ≤ d + p))
UsableShards _ _ = ⊥

at_least_pos :
    (low default : ℕ) (d : ℤ)
    → low ≤ default
    → (n : ℕ) × (at_least low default d ≡ pos n) × (low ≤ n)
at_least_pos low default (negsuc d) h = (default, refl, h)
at_least_pos low default (pos d) h = elim (Bool-cases (ltb d low)) [
  | inl few ↦ (default, rw few refl, h)
  | inr enough ↦ (d, rw enough refl, ground arith)
]

at_least_twice :
    (low default : ℕ) (d : ℤ)
    → low ≤ default
    → at_least low default (at_least low default d) ≡ at_least low default d
at_least_twice low default d h =
    let (n, e, le) = at_least_pos low default d h in
    subst (λ x. at_least low default x ≡ x) (sym e) (kept n le)
  where
    kept : (n : ℕ) → low ≤ n → at_least low default (pos n) ≡ pos n
    kept n le = ground arith

filled_shards :
    (d p : ℤ)
    → too_many (at_least 2 4 d) (at_least 1 2 p) ≡ false
    → UsableShards (at_least 2 4 d) (at_least 1 2 p)
filled_shards d p h =
    let (a, e, two) = at_least_pos 2 4 d (omega arith) in
    let (b, f, one) = at_least_pos 1 2 p (omega arith) in
    let few : too_many (pos a) (pos b) ≡ false =
      subst (λ y. too_many (pos a) y ≡ false) f
        (subst (λ x. too_many x (at_least 1 2 p) ≡ false) e h) in
    subst (λ y. UsableShards (at_least 2 4 d) y) (sym f)
      (subst (λ x. UsableShards x (pos b)) (sym e) (two, one, bounded a b few))
  where
    bounded : (a b : ℕ) → too_many (pos a) (pos b) ≡ false → (a + b ≤ 256) ⊎ (2 ^ 63 ≤ a + b)
    bounded a b few = ground arith

pub fill_erasure_twice : (e : ErasureConfig) → fill_erasure (fill_erasure e) ≡ fill_erasure e
fill_erasure_twice e = elim (Bool-cases e.enabled) [
  | inr off ↦ rw off refl
  | inl on ↦
      rw
        (
          on,
          at_least_twice 2 4 e.data_shards (omega arith),
          at_least_twice 1 2 e.parity_shards (omega arith),
        )
        refl
]

pub filled-UsableShards :
    (e : ErasureConfig)
    → (fill_erasure e).enabled ≡ true
    → (not (fill_erasure e).enabled
        || not (too_many (fill_erasure e).data_shards (fill_erasure e).parity_shards))
      ≡ true
    → UsableShards (fill_erasure e).data_shards (fill_erasure e).parity_shards
filled-UsableShards e used few = elim (Bool-cases e.enabled) [
  | inr off ↦ absurd (ground arith)
  | inl on ↦
      subst (λ f. UsableShards f.data_shards f.parity_shards) (sym (full on))
        (filled_shards e.data_shards e.parity_shards (counted _ (full on) on few))
]
  where
    full :
        e.enabled ≡ true
        → fill_erasure e ≡ record e {
          data_shards = at_least 2 4 e.data_shards;
          parity_shards = at_least 1 2 e.parity_shards;
        }
    full on = rw on refl

    fits : ErasureConfig → Bool
    fits f = not f.enabled || not (too_many f.data_shards f.parity_shards)

    counted :
        (f : ErasureConfig)
        → fill_erasure e ≡ f
        → f.enabled ≡ true
        → fits (fill_erasure e) ≡ true
        → too_many f.data_shards f.parity_shards ≡ false
    counted f same on pass =
        let pass' : fits f ≡ true = subst (λ x. fits x ≡ true) same pass in ground arith
