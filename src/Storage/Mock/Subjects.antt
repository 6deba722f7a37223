-- ===== src/Storage/Mock/Subjects.antt =====
-- The subjects of the in-memory storage: one entry and one identifier for each user.
use riskr_rs.Base.{
  ℕ, suc, ◌<◌, ◌≤◌, ◌≡◌, refl, sym, ap, ◌∙◌, ◌⊎◌, inl, inr, Option, some, none, Text, text_eq, ◌==◌,
  text_beq, text_beq_iff, get, get-insert, Result, ok, if◌then◌else◌, Bool-cases, arith,
}
use riskr_rs.Crates.{Crates}
use riskr_rs.Domain.Subject.{Subject}
use riskr_rs.Storage.Mock.{MockStorage, upsert_entry, upsert_subject}

module _ (X : Crates) where
  abbrev pub lookup : MockStorage X → Text → Option (X.Uuid × Subject)
  lookup s user = get s.subjects user

  -- Every identifier in use was drawn before, and no two users share one.
  pub record HasOwnIds (s : MockStorage X) : Type 0 where
    pub drawn_before :
        (user : Text) (id : X.Uuid) (subject : Subject)
        → lookup s user ≡ some (id, subject)
        → (n : ℕ) × (n < s.drawn) × (id ≡ X.new_v4 n)
    pub own :
        (user other : Text) (id : X.Uuid) (subject subject' : Subject)
        → lookup s user ≡ some (id, subject)
        → lookup s other ≡ some (id, subject')
        → user ≡ other

  -- The identifier that a user gets, and the identifiers drawn after that: the old one where there
  -- is an entry, a fresh one where there is none.
  abbrev pub assign : MockStorage X → Option (X.Uuid × Subject) → X.Uuid × ℕ
  assign s none = (X.new_v4 s.drawn, suc s.drawn)
  assign s (some (old, was)) = (old, s.drawn)

  -- What an upsert does: the user's entry is the subject under the assigned identifier, which is
  -- also the answer; no other entry and no record changes.
  pub record Upserted (subject : Subject) (s : MockStorage X) (out : Result X.Uuid × MockStorage X)
      : Type 0 where
    pub id : X.Uuid
    pub answered : out.0 ≡ ok id
    pub assigned : (id, out.1.drawn) ≡ assign s (lookup s subject.user_id.value)
    pub entries :
        (user : Text)
        → lookup out.1 user
          ≡ (if subject.user_id.value == user then some (id, subject) else lookup s user)
    pub records : out.1.recorded_transactions ≡ s.recorded_transactions
    pub decisions : out.1.recorded_decisions ≡ s.recorded_decisions
    pub volumes : out.1.rolling_volumes ≡ s.rolling_volumes

  upsert_entry-Upserted :
      (subject : Subject) (s : MockStorage X) (entry : Option (X.Uuid × Subject))
      → lookup s subject.user_id.value ≡ entry
      → Upserted subject s (upsert_entry X entry subject s)
  unfolding upsert_entry
  upsert_entry-Upserted subject s none e = record {
    id = X.new_v4 s.drawn;
    answered = refl;
    assigned = ap (assign s) (sym e);
    entries = λ user. get-insert subject.user_id.value user (X.new_v4 s.drawn, subject) s.subjects;
    records = refl;
    decisions = refl;
    volumes = refl;
  }
  upsert_entry-Upserted subject s (some (id, was)) e = record {
    id = id;
    answered = refl;
    assigned = ap (assign s) (sym e);
    entries = λ user. get-insert subject.user_id.value user (id, subject) s.subjects;
    records = refl;
    decisions = refl;
    volumes = refl;
  }

  -- An upsert always succeeds. It answers the identifier that the user has, or a fresh one if the
  -- user has none; it puts the subject under it at the user's entry; and it changes no other entry,
  -- no record and no volume.
  pub upsert_subject-Upserted :
      (subject : Subject) (s : MockStorage X) → Upserted subject s (upsert_subject X subject s)
  unfolding upsert_subject
  upsert_subject-Upserted subject s = upsert_entry-Upserted subject s _ refl

  module _ (draws_differ : (m n : ℕ) → X.new_v4 m ≡ X.new_v4 n → m ≡ n) where
    -- A user other than the upserted one does not have the assigned identifier.
    assigned-own :
        (s : MockStorage X) (user other : Text) (id : X.Uuid) (drawn : ℕ) (subject : Subject)
        (entry : Option (X.Uuid × Subject))
        → HasOwnIds s
        → lookup s user ≡ entry
        → (id, drawn) ≡ assign s entry
        → lookup s other ≡ some (id, subject)
        → user ≡ other
    assigned-own s user other id drawn subject none h e a there_is =
        let (n, below, is_n) = h.drawn_before other id subject there_is in
        let same = draws_differ s.drawn n (sym (ap (λ p. p.0) a) ∙ is_n) in absurd (omega arith)
    assigned-own s user other id drawn subject (some (old, was)) h e a there_is =
        h.own user other id was subject (cc) there_is

    drawn-assigned :
        (s : MockStorage X) (user : Text) (id : X.Uuid) (drawn : ℕ)
        (entry : Option (X.Uuid × Subject))
        → HasOwnIds s
        → lookup s user ≡ entry
        → (id, drawn) ≡ assign s entry
        → (s.drawn ≤ drawn) × ((n : ℕ) × (n < drawn) × (id ≡ X.new_v4 n))
    drawn-assigned s user id drawn none h e a =
        (omega (arith, ap (λ p. p.1) a), (s.drawn, omega (arith, ap (λ p. p.1) a), ap (λ p. p.0) a))
    drawn-assigned s user id drawn (some (old, was)) h e a =
        let (n, below, is_n) = h.drawn_before user old was e in
        let same = ap (λ p. p.1) a in (omega arith, (n, omega arith, ap (λ p. p.0) a ∙ is_n))

    module _ (subject : Subject) (s : MockStorage X) (h : HasOwnIds s) where
      abbrev after : Upserted subject s (upsert_subject X subject s)
      after = upsert_subject-Upserted subject s

      abbrev s' : MockStorage X
      s' = (upsert_subject X subject s).1

      abbrev u : Text
      u = subject.user_id.value

      -- An entry of the new state is that of the upserted subject, or one of the old state.
      entry_cases :
          (user : Text) (i : X.Uuid) (stored : Subject)
          → lookup s' user ≡ some (i, stored)
          → (u ≡ user) × (i ≡ after.id) ⊎ (lookup s user ≡ some (i, stored))
      entry_cases user i stored e =
          let seen = sym (after.entries user) ∙ e in
          elim (Bool-cases (text_beq u user)) [
            | inl y ↦
                let same : ◌≡◌ {A = Option (X.Uuid × Subject)} (some (after.id, subject))
                    (some (i, stored)) =
                  rw y at seen in
                inl ((text_beq_iff u user).0 y, ground arith)
            | inr n ↦ inr (rw n at seen)
          ]

      after_drawn : (s.drawn ≤ s'.drawn) × ((n : ℕ) × (n < s'.drawn) × (after.id ≡ X.new_v4 n))
      after_drawn = drawn-assigned s u after.id s'.drawn (lookup s u) h refl after.assigned

      after_own :
          (other : Text) (stored : Subject) → lookup s other ≡ some (after.id, stored) → u ≡ other
      after_own other stored e =
          assigned-own s u other after.id s'.drawn stored (lookup s u) h refl after.assigned e

      own_cases :
          (user other : Text) (i : X.Uuid) (a b : Subject)
          → (u ≡ user) × (i ≡ after.id) ⊎ (lookup s user ≡ some (i, a))
          → (u ≡ other) × (i ≡ after.id) ⊎ (lookup s other ≡ some (i, b))
          → user ≡ other
      own_cases user other i a b (inl (p, q)) (inl (p', q')) = sym p ∙ p'
      own_cases user other i a b (inl (p, q)) (inr e) = sym p ∙ after_own other b (rw q at e)
      own_cases user other i a b (inr e) (inl (p, q)) = sym (after_own user a (rw q at e)) ∙ p
      own_cases user other i a b (inr e) (inr f) = h.own user other i a b e f

      drawn_cases :
          (user : Text) (i : X.Uuid) (a : Subject)
          → (u ≡ user) × (i ≡ after.id) ⊎ (lookup s user ≡ some (i, a))
          → (n : ℕ) × (n < s'.drawn) × (i ≡ X.new_v4 n)
      drawn_cases user i a (inl (p, q)) = let (n, b, e) = after_drawn.1 in (n, b, q ∙ e)
      drawn_cases user i a (inr e) =
          let (n, b, is_n) = h.drawn_before user i a e in
          let grows = after_drawn.0 in (n, omega arith, is_n)

      -- Where the drawn identifiers are all different, an upsert keeps the storage one where every
      -- identifier in use was drawn before and no two users share one.
      pub upsert_subject-HasOwnIds : HasOwnIds (upsert_subject X subject s).1
      upsert_subject-HasOwnIds = record {
        drawn_before = λ user i a e. drawn_cases user i a (entry_cases user i a e);
        own = λ user other i a b e f.
            own_cases user other i a b (entry_cases user i a e) (entry_cases other i b f);
      }
