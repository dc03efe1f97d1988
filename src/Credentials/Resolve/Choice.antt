-- ===== src/Credentials/Resolve/Choice.antt =====
-- Which credential is picked, and what it resolves to.
use specifyr.Prelude.{
  ℕ, ◌≤◌, ◌<◌, ◌≡◌, ◌≢◌, refl, Bool, true, ◌&&◌, Option, none, some, List, [], ◌∷◌, Text, all, ltb,
  leb, if◌then◌else◌, arith, Option-cases, inl, inr,
}
use specifyr.Database.{select}
use specifyr.Credentials.Cipher.{Cipher, CipherLaws}
use specifyr.Credentials.Rows.{Owner, Provider, LlmCredential, is_present}
use specifyr.Credentials.Store.{ApiKeyInput, api_key_row}
use specifyr.Credentials.Keys.{stored_key}
use specifyr.Credentials.Resolve.{
  is_enabled_for, is_usable, insert_latest, sort_latest, head, picked_row,
}

-- A row that may be picked.
abbrev pub is_candidate : Owner → Provider → LlmCredential → Bool
is_candidate owner provider c = is_enabled_for owner provider c && is_usable c

-- The first of the latest rows among the candidates.
abbrev pub later_of : LlmCredential → Option LlmCredential → Option LlmCredential
later_of c none = some c
later_of c (some d) = if leb d.updated_at c.updated_at then some c else some d

abbrev pub latest : (LlmCredential → Bool) → List LlmCredential → Option LlmCredential
latest p [] = none
latest p (c ∷ cs) = if p c then later_of c (latest p cs) else latest p cs

head-insert_latest :
    (x : LlmCredential) (ys : List LlmCredential) → head (insert_latest x ys) ≡ later_of x (head ys)
unfolding insert_latest
head-insert_latest x [] = refl
head-insert_latest x (y ∷ ys) = ground arith

sort_latest-latest :
    (p q : LlmCredential → Bool) (cs : List LlmCredential)
    → head (sort_latest (select q (select p cs))) ≡ latest (λ c. p c && q c) cs
unfolding sort_latest
sort_latest-latest p q [] = refl
sort_latest-latest p q (c ∷ cs) =
    ground (
      arith,
      sort_latest-latest p q cs,
      head-insert_latest c (sort_latest (select q (select p cs))),
    )

pub picked_row-latest :
    (owner : Owner) (provider : Provider) (cs : List LlmCredential)
    → picked_row owner provider cs ≡ latest (is_candidate owner provider) cs
unfolding picked_row
picked_row-latest owner provider cs =
    sort_latest-latest (is_enabled_for owner provider) is_usable cs

latest-holds :
    (p : LlmCredential → Bool) (cs : List LlmCredential) (r : LlmCredential)
    → latest p cs ≡ some r
    → p r ≡ true
latest-holds p [] r e = ground arith
latest-holds p (c ∷ cs) r e = elim (Option-cases (latest p cs)) [
  | inl empty ↦ ground arith
  | inr (d, found) ↦ ground (arith, latest-holds p cs d found)
]

-- No row that passes the test is later.
abbrev pub NoneLater : (LlmCredential → Bool) → ℕ → List LlmCredential → Type 0
NoneLater p t [] = Unit
NoneLater p t (c ∷ cs) = (p c ≡ true → c.updated_at ≤ t) × NoneLater p t cs

NoneLater-mono :
    (p : LlmCredential → Bool) (s t : ℕ) (cs : List LlmCredential)
    → s ≤ t
    → NoneLater p s cs
    → NoneLater p t cs
NoneLater-mono p s t [] le h = tt
NoneLater-mono p s t (c ∷ cs) le h =
    (λ e. (let before = h.0 e in omega arith), NoneLater-mono p s t cs le h.1)

latest-none :
    (p : LlmCredential → Bool) (t : ℕ) (cs : List LlmCredential)
    → latest p cs ≡ none
    → NoneLater p t cs
latest-none p t [] e = tt
latest-none p t (c ∷ cs) e = elim (Option-cases (latest p cs)) [
  | inl empty ↦ (λ h. ground arith, latest-none p t cs empty)
  | inr (d, found) ↦ ground arith
]

latest-NoneLater :
    (p : LlmCredential → Bool) (cs : List LlmCredential) (r : LlmCredential)
    → latest p cs ≡ some r
    → NoneLater p r.updated_at cs
latest-NoneLater p [] r e = tt
latest-NoneLater p (c ∷ cs) r e = elim (Option-cases (latest p cs)) [
  | inl empty ↦ (λ h. ground arith, latest-none p r.updated_at cs empty)
  | inr (d, found) ↦
      let below = latest-NoneLater p cs d found in
      let le : d.updated_at ≤ r.updated_at = ground arith in
      (λ h. ground arith, NoneLater-mono p d.updated_at r.updated_at cs le below)
]

-- The credential that is picked belongs to the owner and the provider asked for, is enabled and
-- usable, and no such credential of the table has been updated later.
pub picked_row_sound :
    (owner : Owner) (provider : Provider) (cs : List LlmCredential) (r : LlmCredential)
    → picked_row owner provider cs ≡ some r
    → (is_candidate owner provider r ≡ true)
      × NoneLater (is_candidate owner provider) r.updated_at cs
picked_row_sound owner provider cs r e =
    let at_latest : latest (is_candidate owner provider) cs ≡ some r =
      cc (e, picked_row-latest owner provider cs) in
    (
      latest-holds (is_candidate owner provider) cs r at_latest,
      latest-NoneLater (is_candidate owner provider) cs r at_latest,
    )

latest-earlier :
    (p : LlmCredential → Bool) (now : ℕ) (cs : List LlmCredential) (d : LlmCredential)
    → all (λ c. ltb c.updated_at now) cs ≡ true
    → latest p cs ≡ some d
    → d.updated_at < now
latest-earlier p now [] d h e = ground arith
latest-earlier p now (c ∷ cs) d h e = elim (Option-cases (latest p cs)) [
  | inl empty ↦ ground arith
  | inr (b, found) ↦ ground (arith, latest-earlier p now cs b (ground arith) found)
]

pub latest-first :
    (p : LlmCredential → Bool) (c : LlmCredential) (cs : List LlmCredential)
    → p c ≡ true
    → all (λ d. ltb d.updated_at c.updated_at) cs ≡ true
    → latest p (c ∷ cs) ≡ some c
latest-first p c cs h earlier = elim (Option-cases (latest p cs)) [
  | inl empty ↦ ground arith
  | inr (d, found) ↦ ground (arith, latest-earlier p c.updated_at cs d earlier found)
]

present_of_nonempty : (t : Text) → t ≢ [] → is_present (some t) ≡ true
present_of_nonempty [] n = absurd (n refl)
present_of_nonempty (c ∷ t) n = refl

pub stored_key-api_key_row :
    (cipher : Cipher) (id now : ℕ) (iv : Text) (input : ApiKeyInput)
    → CipherLaws cipher
    → input.key ≢ []
    → stored_key (api_key_row id now (cipher.encrypt iv input.key) input)
      ≡ some (cipher.encrypt iv input.key)
stored_key-api_key_row cipher id now iv input laws n = ground (
  arith,
  present_of_nonempty (cipher.encrypt iv input.key).iv (laws.iv_present iv input.key n),
  present_of_nonempty (cipher.encrypt iv input.key).tag (laws.tag_present iv input.key n),
  present_of_nonempty (cipher.encrypt iv input.key).payload (laws.payload_present iv input.key n),
)
