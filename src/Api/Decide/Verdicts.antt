-- ===== src/Api/Decide/Verdicts.antt =====
-- The verdict on a list of results: the most severe decision, and the evidence, of the hits.
use mathlib.Core.List.{append_assoc, append-nil}
use riskr_rs.Base.{
  ℕ, ◌≤◌, ◌≡◌, ◌⊎◌, inl, inr, refl, sym, ap, ◌∙◌, true, false, Option, none, some, List, [], ◌∷◌,
  ◌++◌, All, Any, here, keep_if, Bool-cases, if◌then◌else◌, arith, All-append, All-map, Any-of-All,
  Any-append_left, Any-append_right, subst, keep_if-append, keep_if-append,
}
use riskr_rs.Domain.Decision.{Decision, allow, severity, gt}
use riskr_rs.Domain.Decision.Order.{severity-injective}
use riskr_rs.Domain.Evidence.{Evidence, RuleResult}
use riskr_rs.Api.Decide.{Verdict, initial, push, absorb}

unfoldable pub absorb_all : List RuleResult → Verdict → Verdict
absorb_all [] v = v
absorb_all (r ∷ rs) v = absorb_all rs (absorb r v)

-- The results of the rules that triggered.
abbrev pub hits : List RuleResult → List RuleResult
hits rs = keep_if (λ (r : RuleResult). r.hit) rs

abbrev pub evidence_of : List RuleResult → List Evidence
evidence_of [] = []
evidence_of (r ∷ rs) = push r.evidence [] ++ evidence_of rs

-- `d` is the most severe decision of the results, or `allow` where none is more severe.
pub record IsWorst (d : Decision) (rs : List RuleResult) : Type 0 where
  pub bound : All (λ (r : RuleResult). severity r.decision ≤ severity d) rs
  pub reached : (d ≡ allow) ⊎ Any (λ (r : RuleResult). r.decision ≡ d) rs

pub severity-allow-le : (d : Decision) (n : ℕ) → d ≡ allow → severity d ≤ n
unfolding severity
severity-allow-le d n e = rw e (omega arith)

severity-le-of-IsWorst :
    (d d' : Decision) (rs : List RuleResult)
    → IsWorst d rs
    → IsWorst d' rs
    → severity d ≤ severity d'
severity-le-of-IsWorst d d' rs w w' = elim w.reached [
  | inl e ↦ severity-allow-le d _ e
  | inr found ↦ Any-of-All rs w'.bound found (λ r le e. rw e at le)
]

-- There is only one such decision.
IsWorst-unique : (d d' : Decision) (rs : List RuleResult) → IsWorst d rs → IsWorst d' rs → d ≡ d'
IsWorst-unique d d' rs w w' =
    severity-injective d d'
      (omega (arith, severity-le-of-IsWorst d d' rs w w', severity-le-of-IsWorst d' d rs w' w))

-- A verdict says what the hits among the results say: their most severe decision, and their
-- evidence in order.
pub record IsVerdict (rs : List RuleResult) (v : Verdict) : Type 0 where
  pub worst : IsWorst v.decision (hits rs)
  pub evidence : v.evidence ≡ evidence_of (hits rs)

pub initial-IsVerdict : IsVerdict [] initial
initial-IsVerdict = record { worst = record { bound = tt; reached = inl refl }; evidence = refl }

hits-snoc_hit :
    (rs : List RuleResult) (r : RuleResult) → r.hit ≡ true → hits (rs ++ r ∷ []) ≡ hits rs ++ r ∷ []
hits-snoc_hit rs r h = keep_if-append (λ r. r.hit) rs (r ∷ []) ∙ simp h

hits-snoc_miss :
    (rs : List RuleResult) (r : RuleResult) → r.hit ≡ false → hits (rs ++ r ∷ []) ≡ hits rs
hits-snoc_miss rs r h = keep_if-append (λ r. r.hit) rs (r ∷ []) ∙ simp (h, append-nil)

push-append : (o : Option Evidence) (l : List Evidence) → push o l ≡ l ++ push o []
push-append none l = sym (append-nil l)
push-append (some e) l = refl

evidence_of-snoc :
    (rs : List RuleResult) (r : RuleResult)
    → evidence_of (rs ++ r ∷ []) ≡ push r.evidence (evidence_of rs)
evidence_of-snoc [] r = append-nil _
evidence_of-snoc (x ∷ rs) r = cc (
  evidence_of-snoc rs r,
  push-append r.evidence (evidence_of rs),
  push-append r.evidence (push x.evidence [] ++ evidence_of rs),
  append_assoc (push x.evidence []) (evidence_of rs) (push r.evidence []),
)

worse_bound :
    (d e : Decision) (rs : List RuleResult)
    → severity d ≤ severity e
    → All (λ (r : RuleResult). severity r.decision ≤ severity d) rs
    → All (λ (r : RuleResult). severity r.decision ≤ severity e) rs
worse_bound d e rs le = All-map (λ r h. omega arith) rs

-- The decision after one more hit.
IsWorst-snoc :
    (d : Decision) (rs : List RuleResult) (r : RuleResult)
    → IsWorst d rs
    → IsWorst (if gt r.decision d then r.decision else d) (rs ++ r ∷ [])
unfolding gt
IsWorst-snoc d rs r w = elim (Bool-cases (gt r.decision d)) [
  | inl y ↦ rw y (record {
    bound =
        All-append _ rs (r ∷ []) (worse_bound d r.decision rs (ground arith) w.bound)
          (ground arith, tt);
    reached = inr (Any-append_right rs (r ∷ []) (here refl));
  })
  | inr n ↦ rw n (record {
    bound = All-append _ rs (r ∷ []) w.bound (ground arith, tt);
    reached = elim w.reached [ inl e ↦ inl e | inr m ↦ inr (Any-append_left rs (r ∷ []) m) ];
  })
]

absorb-IsVerdict :
    (rs : List RuleResult) (r : RuleResult) (v : Verdict)
    → IsVerdict rs v
    → IsVerdict (rs ++ r ∷ []) (absorb r v)
unfolding absorb
absorb-IsVerdict rs r v h = elim (Bool-cases r.hit) [
  | inl y ↦ simp y (record {
    worst = rw (hits-snoc_hit rs r y) (IsWorst-snoc v.decision (hits rs) r h.worst);
    evidence =
        ap (push r.evidence) h.evidence
        ∙ sym (evidence_of-snoc (hits rs) r)
        ∙ ap evidence_of (sym (hits-snoc_hit rs r y));
  })
  | inr n ↦ simp n (record {
    worst = rw (hits-snoc_miss rs r n) h.worst;
    evidence = h.evidence ∙ ap evidence_of (sym (hits-snoc_miss rs r n));
  })
]

-- The loops absorb the results one after the other.
pub absorb_all-IsVerdict :
    (rs new : List RuleResult) (v : Verdict)
    → IsVerdict rs v
    → IsVerdict (rs ++ new) (absorb_all new v)
unfolding absorb_all
absorb_all-IsVerdict rs [] v h = rw (append-nil rs) h
absorb_all-IsVerdict rs (r ∷ new) v h =
    subst (λ l. IsVerdict l (absorb_all new (absorb r v))) (append_assoc rs (r ∷ []) new)
      (absorb_all-IsVerdict (rs ++ r ∷ []) new (absorb r v) (absorb-IsVerdict rs r v h))
