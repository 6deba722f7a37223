-- ===== src/Rules/Ofac/Screening.antt =====
-- What screening finds: the bloom filter never hides a listed address.
use riskr_rs.Base.{
  ◌≡◌, ◌↔◌, inl, inr, true, List, [], ◌∷◌, ◌++◌, map, refl, ap, ◌∙◌, subst, Text, codes, text_eq,
  to_lowercase, contains_iff, contains-collect_set, collect_set, In, here, there, All, Bool-cases,
  arith, Any, Any-of-All,
}
use riskr_rs.Crates.{Crates, BloomLaws}
use riskr_rs.Domain.Decision.{Decision}
use riskr_rs.Domain.Evidence
use riskr_rs.Domain.Evidence.{RuleResult, pass, trigger}
use riskr_rs.Domain.Subject.{Address}
use riskr_rs.Domain.Event.{TxEvent}
use riskr_rs.Rules.Ofac.{OfacRule, set_all, new, is_sanctioned, screen, evaluate}

-- The address is on the list, up to case.
abbrev pub IsListed : List Text → Text → Type 0
IsListed sanctions addr = In (to_lowercase addr) (map to_lowercase sanctions)

module _ (X : Crates) (laws : BloomLaws X) where
  open laws use {check-set_self, check-set_of_check}

  check-set_all_of_check :
      (l : List Text) (b : X.Bloom) (a : Text)
      → X.bloom_check b a ≡ true
      → X.bloom_check (set_all X b l) a ≡ true
  check-set_all_of_check [] b a h = h
  check-set_all_of_check (x ∷ l) b a h =
      check-set_all_of_check l (X.bloom_set b x) a (check-set_of_check b x a h)

  check-set_all :
      (a : Text) (l : List Text) (b : X.Bloom) → In a l → X.bloom_check (set_all X b l) a ≡ true
  check-set_all a _ b (here {x} {xs} e) =
      check-set_all_of_check xs (X.bloom_set b x) a
        (subst (λ c. X.bloom_check (X.bloom_set b x) c ≡ true) e (check-set_self b x))
  check-set_all a _ b (there {x} {xs} h) = check-set_all a xs (X.bloom_set b x) h

  module _ (id : Text) (action : Decision) (sanctions : List Text) where
    abbrev rule : OfacRule X
    rule = new X id action sanctions

    -- With a bloom filter that has no false negatives in front, an address is found sanctioned
    -- exactly if it is on the list that the rule was made from, up to case.
    pub is_sanctioned_iff :
        (addr : Text) → (is_sanctioned X rule addr ≡ true) ↔ IsListed sanctions addr
    unfolding is_sanctioned new
    is_sanctioned_iff addr =
        let listed = collect_set (map to_lowercase sanctions) in
        let lowered = contains-collect_set (map to_lowercase sanctions) (to_lowercase addr) in
        let (sound, complete) = contains_iff (map to_lowercase sanctions) (to_lowercase addr) in
        let member = contains_iff listed (to_lowercase addr) in
        (
          λ h. sound (ground (arith, lowered)),
          λ h.
              let found = lowered ∙ complete h in
              rw (check-set_all (to_lowercase addr) listed (X.new_for_fp_rate _) (member.0 found))
                found,
        )

    abbrev IsClean : Address → Type 0
    IsClean a = ¬ IsListed sanctions a.value

    -- The first listed address, with the clean addresses before it.
    pub record FirstListed (addresses : List Address) : Type 0 where
      pub before : List Address
      pub found : Address
      pub rest : List Address
      pub split : addresses ≡ before ++ found ∷ rest
      pub all_clean : All IsClean before
      pub listed : IsListed sanctions found.value

    abbrev hit_on : Address → RuleResult
    hit_on a = trigger action (Evidence.new id (codes "address") a.value)

    FirstListed-cons :
        {a : Address} {rest : List Address} → IsClean a → FirstListed rest → FirstListed (a ∷ rest)
    FirstListed-cons {a} clean f = record {
      before = a ∷ f.before;
      found = f.found;
      rest = f.rest;
      split = ap (λ l. a ∷ l) f.split;
      all_clean = (clean, f.all_clean);
      listed = f.listed;
    }

    first_hit :
        (a : Address) (rest : List Address)
        → is_sanctioned X rule a.value ≡ true
        → screen X rule (a ∷ rest) ≡ hit_on a
    unfolding screen new
    first_hit a rest h = rw h

    -- What the evaluation of a list of addresses may give.
    pub data Screened (addresses : List Address) (r : RuleResult) : Type 0 where
      clean : All IsClean addresses → r ≡ pass → Screened addresses r
      listed : (f : FirstListed addresses) → r ≡ hit_on f.found → Screened addresses r

    Screened-cons :
        {a : Address} {rest : List Address} {r : RuleResult}
        → IsClean a
        → Screened rest r
        → Screened (a ∷ rest) r
    unfolding FirstListed-cons
    Screened-cons c (clean all e) = clean (c, all) e
    Screened-cons c (listed f e) = listed (FirstListed-cons c f) e

    screen-Screened : (addresses : List Address) → Screened addresses (screen X rule addresses)
    unfolding screen
    screen-Screened [] = clean tt refl
    screen-Screened (a ∷ rest) = elim (Bool-cases (is_sanctioned X rule a.value)) [
      | inl y ↦
          listed
            (record {
              before = [];
              found = a;
              rest = rest;
              split = refl;
              all_clean = tt;
              listed = (is_sanctioned_iff a.value).0 y;
            })
            (first_hit a rest y)
      | inr n ↦ rw n (
          Screened-cons (λ on_list. cc ((is_sanctioned_iff a.value).1 on_list))
            (screen-Screened rest))
    ]

    -- With a bloom filter that has no false negatives, the rule reports the first address of the
    -- subject that is on the list, up to case, and passes if there is none.
    evaluate-Screened :
        (event : TxEvent X) → Screened event.subject.addresses (evaluate X rule event)
    unfolding evaluate
    evaluate-Screened event = screen-Screened event.subject.addresses

    -- A listed address anywhere in the list makes the rule hit with its action.
    Screened-hit :
        (addresses : List Address) (r : RuleResult)
        → Any (λ (a : Address). IsListed sanctions a.value) addresses
        → Screened addresses r
        → (r.hit ≡ true) × (r.decision ≡ action)
    unfolding trigger
    Screened-hit addresses r some_listed (clean all e) =
        absurd
          (Any-of-All addresses all some_listed (λ a not_listed is_listed. not_listed is_listed))
    Screened-hit addresses r some_listed (listed f e) = (ap (λ x. x.hit) e, ap (λ x. x.decision) e)

    pub evaluate-screened_hit :
        (event : TxEvent X)
        → Any (λ (a : Address). IsListed sanctions a.value) event.subject.addresses
        → ((evaluate X rule event).hit ≡ true) × ((evaluate X rule event).decision ≡ action)
    evaluate-screened_hit event some_listed =
        Screened-hit event.subject.addresses _ some_listed (evaluate-Screened event)
