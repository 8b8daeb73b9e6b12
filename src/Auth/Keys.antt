-- ===== src/Auth/Keys.antt =====
-- auth/apikey_authenticator.go: which tokens `Authenticate` accepts, and as whom.
use callfs.Prelude.{
  ℕ, ◌+◌, ◌≤◌, ◌≡◌, ◌≢◌, ◌⊎◌, inl, inr, refl, sym, ap, ◌∙◌, arith, Text, text_eq, text_eq_iff,
  Bool-cases, true, Option, Option-cases, none, some, List, [], ◌∷◌, ok,
}
use callfs.Prelude.Map
use callfs.Prelude.Map.{Map, get-put, Distinct-put}
use callfs.Auth.{
  number_keys, valid_keys, scan_keys, authenticate, bare_token, api_user, internal_proxy,
}

-- The loop that compares with every key finds what a lookup finds.
abbrev or_found : Option Text → Option Text → Option Text
or_found found none = found
or_found found (some uid) = some uid

scan_keys_absent :
    (token : Text) (found : Option Text) (valid : Map Text)
    → Map.get token valid ≡ none
    → scan_keys token found valid ≡ found
unfolding scan_keys Map.get
scan_keys_absent token found [] h = refl
scan_keys_absent token found ((key, uid) ∷ valid) h =
    ground (arith, text_eq_iff token key, text_eq_iff key token, scan_keys_absent token found valid)

scan_keys-get :
    (token : Text) (found : Option Text) (valid : Map Text)
    → Map.Distinct valid
    → scan_keys token found valid ≡ or_found found (Map.get token valid)
unfolding scan_keys Map.get
scan_keys-get token found [] d = refl
scan_keys-get token found ((key, uid) ∷ valid) (new, d) = elim (Bool-cases (text_eq key token)) [
  | inl e ↦
      let same : key ≡ token = (text_eq_iff key token).0 e in
      let back : text_eq token key ≡ true = (text_eq_iff token key).1 (sym same) in
      let gone : Map.get token valid ≡ none = ap (λ k. Map.get k valid) (sym same) ∙ new in
      rw (e, back) (scan_keys_absent token (some uid) valid gone)
  | inr e ↦
      ground
        (arith, text_eq_iff token key, text_eq_iff key token, scan_keys-get token found valid d)
]

-- The keys of the configuration, the number of the next one to be taken in.
number_keys-Distinct :
    (n : ℕ) (keys : List Text) (valid : Map Text)
    → Map.Distinct valid
    → Map.Distinct (number_keys n keys valid)
unfolding number_keys
number_keys-Distinct n [] valid d = d
number_keys-Distinct n (key ∷ keys) valid d = elim (Bool-cases (text_eq key [])) [
  | inl e ↦ rw e (number_keys-Distinct n keys valid d)
  | inr e ↦ rw e (
      number_keys-Distinct (n + 1) keys (Map.put key (api_user n) valid)
        (Distinct-put key (api_user n) valid d))
]

-- A text among the keys of the configuration.
abbrev pub Listed : Text → List Text → Type 0
Listed token [] = ⊥
Listed token (key ∷ keys) = (token ≡ key) ⊎ Listed token keys

-- A user that stands for a key: `api-user-` and a number from `n` on.
abbrev pub IsApiUser : ℕ → Text → Type 0
IsApiUser n uid = (m : ℕ) × (n ≤ m) × (uid ≡ api_user m)

number_keys_sound :
    (n : ℕ) (keys : List Text) (valid : Map Text) (token uid : Text)
    → Map.get token (number_keys n keys valid) ≡ some uid
    → (Map.get token valid ≡ some uid) ⊎ (Listed token keys × IsApiUser n uid)
unfolding number_keys
number_keys_sound n [] valid token uid h = inl h
number_keys_sound n (key ∷ keys) valid token uid h = elim (Bool-cases (text_eq key [])) [
  | inl e ↦ elim (number_keys_sound n keys valid token uid (ground arith)) [
    | inl before ↦ inl before
    | inr (here, who) ↦ inr (inr here, who)
  ]
  | inr e ↦
      elim (number_keys_sound (n + 1) keys (Map.put key (api_user n) valid) token uid
        (ground arith)) [
          | inl before ↦ elim (Bool-cases (text_eq key token)) [
            | inl same ↦ inr (
              inl (sym ((text_eq_iff key token).0 same)),
              (n, omega arith, ground (arith, get-put key token (api_user n) valid)),
            )
            | inr other ↦ inl (ground (arith, get-put key token (api_user n) valid))
          ]
          | inr (here, (m, le, who)) ↦ inr (inr here, (m, omega (arith, le), who))
        ]
]

-- Who a token that `Authenticate` accepts stands for.
abbrev pub Stands : List Text → Text → Text → Text → Type 0
Stands keys secret token uid =
    ((token ≡ secret) × (uid ≡ internal_proxy)) ⊎ (Listed token keys × IsApiUser 1 uid)

valid_keys-Distinct : (keys : List Text) (secret : Text) → Map.Distinct (valid_keys keys secret)
unfolding valid_keys
valid_keys-Distinct keys secret =
    let d = number_keys-Distinct 1 keys [] tt in
    elim (Bool-cases (text_eq secret [])) [
      | inl e ↦ rw e d
      | inr e ↦ rw e (Distinct-put secret internal_proxy (number_keys 1 keys []) d)
    ]

valid_keys_sound :
    (keys : List Text) (secret token uid : Text)
    → Map.get token (valid_keys keys secret) ≡ some uid
    → Stands keys secret token uid
unfolding valid_keys Map.get
valid_keys_sound keys secret token uid h =
    let listed : Map.get token (number_keys 1 keys []) ≡ some uid → Stands keys secret token uid =
      λ q. elim (number_keys_sound 1 keys [] token uid q) [
        | inl nothing ↦ absurd (ground arith)
        | inr listed ↦ inr listed
      ] in
    elim (Bool-cases (text_eq secret [])) [
      | inl e ↦ listed (ground arith)
      | inr e ↦ elim (Bool-cases (text_eq secret token)) [
        | inl same ↦ inl (
          sym ((text_eq_iff secret token).0 same),
          ground (arith, get-put secret token internal_proxy (number_keys 1 keys [])),
        )
        | inr other ↦
            listed (ground (arith, get-put secret token internal_proxy (number_keys 1 keys [])))
      ]
    ]

-- Whoever is let in has a token that is not empty, and is the internal proxy with the internal secret,
-- or the user "api-user-N", for some N from 1 on, with one of the configured keys.
pub authenticate_sound :
    (keys : List Text) (secret header uid : Text)
    → authenticate (valid_keys keys secret) header ≡ ok uid
    → (bare_token header ≢ []) × Stands keys secret (bare_token header) uid
unfolding authenticate
authenticate_sound keys secret header uid h =
    let token = bare_token header in
    let scan =
      scan_keys-get token none (valid_keys keys secret) (valid_keys-Distinct keys secret) in
    elim (Option-cases (Map.get token (valid_keys keys secret))) [
      | inl e ↦ absurd (ground arith)
      | inr (who, e) ↦ (
        ground (arith, text_eq_iff token []),
        valid_keys_sound keys secret token uid (ground (arith, text_eq_iff token [])),
      )
    ]
