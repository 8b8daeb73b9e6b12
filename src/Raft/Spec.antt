-- ===== src/Raft/Spec.antt =====
-- What a client of the store may rely on (metadata/store.go, `Store`): three partial functions and
-- what each command makes of them, with no word on how the maps are kept.
use callfs.Prelude.{
  ℕ, Text, text_eq, if◌then◌else◌, ◌≡◌, refl, Option, none, some, Option-cases, inl, inr,
  Bool-cases,
}
use callfs.Prelude.Map
use callfs.Metadata.{Metadata, SingleUseLink, ErasureFileInfo, active}
use callfs.Raft.{
  Op, Command, State, Fault, CommandResult, apply_op, apply, consumed, is_expired, is_spent,
  apply_create_metadata, apply_update_metadata, apply_delete_metadata, apply_create_link,
  apply_update_link, apply_cleanup_expired_links, apply_cleanup_used_links,
  apply_create_erasure_info, create_metadata, update_metadata, delete_metadata, create_link,
  update_link, cleanup_expired_links, cleanup_used_links, create_erasure_info, delete_erasure_info,
  other, no_such_entry, entry_exists, metadata_required, link_required, before_required,
  older_than_required, erasure_info_required, unknown_operation, invalid_command,
}
use callfs.Raft.Keys.{IsKeyed}

pub record Tables : Type 0 where
  pub metadata : Text → Option Metadata
  pub links : Text → Option SingleUseLink
  pub erasure : Text → Option ErasureFileInfo

abbrev pub tables : State → Tables
tables s = record {
  metadata = λ p. Map.get p s.metadata_by_path;
  links = λ t. Map.get t s.links_by_token;
  erasure = λ p. Map.get p s.erasure_by_path;
}

abbrev pub at {ℓ} : {V : Type ℓ} → (Text → Option V) → Text → Option V → Text → Option V
at f k o j = if text_eq k j then o else f j

-- What is answered, and the tables that result.
abbrev Answer : Type 0
Answer = Option Fault × Tables

abbrev fresh {ℓ} : {V : Type ℓ} → Option V → Tables → Tables → Answer
fresh none t t' = (none, t')
fresh (some _) t t' = (some entry_exists, t)

abbrev present {ℓ} : {V : Type ℓ} → Option V → Tables → Tables → Answer
present none t t' = (some no_such_entry, t)
present (some _) t t' = (none, t')

abbrev spec_create : Option Metadata → Tables → Answer
spec_create none t = (some metadata_required, t)
spec_create (some md) t =
    fresh (t.metadata md.path) t (record t { metadata = at t.metadata md.path (some md) })

abbrev spec_update : Option Metadata → Tables → Answer
spec_update none t = (some metadata_required, t)
spec_update (some md) t =
    present (t.metadata md.path) t (record t { metadata = at t.metadata md.path (some md) })

abbrev spec_delete : Text → Tables → Answer
spec_delete p t = present (t.metadata p) t (record t { metadata = at t.metadata p none })

abbrev spec_create_link : Option SingleUseLink → Tables → Answer
spec_create_link none t = (some link_required, t)
spec_create_link (some l) t =
    fresh (t.links l.token) t (record t { links = at t.links l.token (some l) })

abbrev spec_update_link : Option SingleUseLink → Command → ℕ → Tables → Answer
spec_update_link none c now t = (some no_such_entry, t)
spec_update_link (some l) c now t =
    if text_eq l.status active
    then (none, record t { links = at t.links c.token (some (consumed c now l)) })
    else (some no_such_entry, t)

abbrev spec_expired : Option ℕ → Tables → Answer
spec_expired none t = (some before_required, t)
spec_expired (some b) t = (none, record t { links = λ k. Map.drop_if (is_expired b) (t.links k) })

abbrev spec_spent : Option ℕ → Tables → Answer
spec_spent none t = (some older_than_required, t)
spec_spent (some b) t = (none, record t { links = λ k. Map.drop_if (is_spent b) (t.links k) })

abbrev spec_create_erasure : Text → Option ErasureFileInfo → Tables → Answer
spec_create_erasure p none t = (some erasure_info_required, t)
spec_create_erasure p (some info) t =
    fresh (t.erasure p) t (record t { erasure = at t.erasure p (some info) })

abbrev spec_op : Op → Command → ℕ → Tables → Answer
spec_op create_metadata c now t = spec_create c.metadata t
spec_op update_metadata c now t = spec_update c.metadata t
spec_op delete_metadata c now t = spec_delete c.path t
spec_op create_link c now t = spec_create_link c.link t
spec_op update_link c now t = spec_update_link (t.links c.token) c now t
spec_op cleanup_expired_links c now t = spec_expired c.before t
spec_op cleanup_used_links c now t = spec_spent c.older_than t
spec_op create_erasure_info c now t = spec_create_erasure c.path c.erasure_info t
spec_op delete_erasure_info c now t = (none, record t { erasure = at t.erasure c.path none })
spec_op (other _) c now t = (some unknown_operation, t)

abbrev pub spec : Option Command → ℕ → Tables → Answer
spec none now t = (some invalid_command, t)
spec (some c) now t = spec_op c.op c now t

abbrev pub observe : CommandResult × State → Answer
observe (r, s) = (r.fault, tables s)

-- One field of the tables changed at every key alike, beside the answer "no error".
done_metadata :
    (t : Tables) {f g : Text → Option Metadata}
    → ((p : Text) → f p ≡ g p)
    → ◌≡◌ {A = Answer} (none, record t { metadata = f }) (none, record t { metadata = g })
done_metadata t h = λ i. (none, record t { metadata = λ p. h p i })

done_links :
    (t : Tables) {f g : Text → Option SingleUseLink}
    → ((k : Text) → f k ≡ g k)
    → ◌≡◌ {A = Answer} (none, record t { links = f }) (none, record t { links = g })
done_links t h = λ i. (none, record t { links = λ k. h k i })

done_erasure :
    (t : Tables) {f g : Text → Option ErasureFileInfo}
    → ((p : Text) → f p ≡ g p)
    → ◌≡◌ {A = Answer} (none, record t { erasure = f }) (none, record t { erasure = g })
done_erasure t h = λ i. (none, record t { erasure = λ p. h p i })

module _ (s : State) where
  create-spec :
      (o : Option Metadata) → observe (apply_create_metadata o s) ≡ spec_create o (tables s)
  unfolding apply_create_metadata
  create-spec none = refl
  create-spec (some md) = elim (Option-cases (Map.get md.path s.metadata_by_path)) [
    | inl e ↦
        rw (e, apply_create_metadata)
          (done_metadata (tables s) (λ p. Map.get-put md.path p md s.metadata_by_path))
    | inr (x, e) ↦ rw (e, apply_create_metadata)
  ]

  update-spec :
      (o : Option Metadata) → observe (apply_update_metadata o s) ≡ spec_update o (tables s)
  unfolding apply_update_metadata
  update-spec none = refl
  update-spec (some md) = elim (Option-cases (Map.get md.path s.metadata_by_path)) [
    | inl e ↦ rw (e, apply_update_metadata)
    | inr (x, e) ↦
        rw (e, apply_update_metadata)
          (done_metadata (tables s) (λ p. Map.get-put md.path p md s.metadata_by_path))
  ]

  delete-spec : (p : Text) → observe (apply_delete_metadata p s) ≡ spec_delete p (tables s)
  unfolding apply_delete_metadata
  delete-spec p = elim (Option-cases (Map.get p s.metadata_by_path)) [
    | inl e ↦ rw (e, apply_delete_metadata)
    | inr (x, e) ↦
        rw (e, apply_delete_metadata)
          (done_metadata (tables s) (λ j. Map.get-remove p j s.metadata_by_path))
  ]

  create_link-spec :
      (o : Option SingleUseLink) → observe (apply_create_link o s) ≡ spec_create_link o (tables s)
  unfolding apply_create_link
  create_link-spec none = refl
  create_link-spec (some l) = elim (Option-cases (Map.get l.token s.links_by_token)) [
    | inl e ↦
        rw (e, apply_create_link)
          (done_links (tables s) (λ k. Map.get-put l.token k l s.links_by_token))
    | inr (x, e) ↦ rw (e, apply_create_link)
  ]

  update_link-spec :
      (c : Command) (now : ℕ)
      → observe (apply_update_link c now s)
        ≡ spec_update_link (Map.get c.token s.links_by_token) c now (tables s)
  unfolding apply_update_link
  update_link-spec c now = elim (Option-cases (Map.get c.token s.links_by_token)) [
    | inl e ↦ rw (e, apply_update_link)
    | inr (l, e) ↦
        rw (e, apply_update_link)
          (elim (Bool-cases (text_eq l.status active)) [
            | inl a ↦ rw a (
                done_links (tables s)
                  (λ k. Map.get-put c.token k (consumed c now l) s.links_by_token))
            | inr b ↦ rw b
          ])
  ]

  expired-spec :
      (o : Option ℕ)
      → Map.Distinct s.links_by_token
      → observe (apply_cleanup_expired_links o s) ≡ spec_expired o (tables s)
  unfolding apply_cleanup_expired_links
  expired-spec none d = refl
  expired-spec (some b) d =
      done_links (tables s) (λ k. Map.get-sweep (is_expired b) k s.links_by_token d)

  spent-spec :
      (o : Option ℕ)
      → Map.Distinct s.links_by_token
      → observe (apply_cleanup_used_links o s) ≡ spec_spent o (tables s)
  unfolding apply_cleanup_used_links
  spent-spec none d = refl
  spent-spec (some b) d =
      done_links (tables s) (λ k. Map.get-sweep (is_spent b) k s.links_by_token d)

  create_erasure-spec :
      (p : Text) (o : Option ErasureFileInfo)
      → observe (apply_create_erasure_info p o s) ≡ spec_create_erasure p o (tables s)
  unfolding apply_create_erasure_info
  create_erasure-spec p none = refl
  create_erasure-spec p (some info) = elim (Option-cases (Map.get p s.erasure_by_path)) [
    | inl e ↦
        rw (e, apply_create_erasure_info)
          (done_erasure (tables s) (λ j. Map.get-put p j info s.erasure_by_path))
    | inr (x, e) ↦ rw (e, apply_create_erasure_info)
  ]

  op-spec :
      (o : Op) (c : Command) (now : ℕ)
      → Map.Distinct s.links_by_token
      → observe (apply_op o c now s) ≡ spec_op o c now (tables s)
  unfolding apply_op
  op-spec create_metadata c now d = create-spec c.metadata
  op-spec update_metadata c now d = update-spec c.metadata
  op-spec delete_metadata c now d = delete-spec c.path
  op-spec create_link c now d = create_link-spec c.link
  op-spec update_link c now d = update_link-spec c now
  op-spec cleanup_expired_links c now d = expired-spec c.before d
  op-spec cleanup_used_links c now d = spent-spec c.older_than d
  op-spec create_erasure_info c now d = create_erasure-spec c.path c.erasure_info
  op-spec delete_erasure_info c now d =
      done_erasure (tables s) (λ j. Map.get-remove c.path j s.erasure_by_path)
  op-spec (other _) c now d = refl

-- On well-keyed maps every command, valid or not, gives the answer and makes the change that the
-- specification by partial functions states: the error, the entry written or deleted, and the links
-- that a cleanup deletes, with every other entry as it was.
pub apply_refines_spec :
    (c : Option Command) (now : ℕ) (s : State)
    → IsKeyed s
    → observe (apply c now s) ≡ spec c now (tables s)
unfolding apply
apply_refines_spec none now s v = refl
apply_refines_spec (some c) now s v = op-spec s c.op c now v.tokens_distinct
