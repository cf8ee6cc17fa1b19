-- ===== src/Staticlint/Analyzers.antt =====
-- cmd/staticlint/main.go: the list of analysers. Those of other modules are parameters.
use text.Mathlib.Text.{starts_with}
use mathlib.Core.List.{append_assoc, append-nil}
use metrics_alerting_service.Prelude.{
  String, ◌≡◌, sym, ap, ◌∙◌, List, [], ◌∷◌, ◌++◌, if◌then◌else◌, Bool, true, false,
}

-- the analysers that are named one by one
pub data Named : Type 0 where
  assign atomic bools buildtag composite copylock errorsas httpresponse loopclosure lostcancel :
      Named
  nilfunc printf shadow shift stdmethods structtag tests unmarshal unreachable unsafeptr : Named
  unusedresult bodyclose nilerr osexit nofatal : Named

-- The analysers themselves, their names, and the sets of staticcheck.
pub record Registry (A : Type 0) : Type 0 where
  pub analyzer : Named → A
  pub name : A → String
  pub staticcheck : List A
  pub simple : List A
  pub stylecheck : List A
  pub quickfix : List A

module _ {A : Type 0} (reg : Registry A) where
  all_of : List Named → List A
  all_of [] = []
  all_of (n ∷ ns) = reg.analyzer n ∷ all_of ns

  unfoldable pub named : List A
  unfolding all_of
  named = all_of (
      assign ∷ atomic ∷ bools ∷ buildtag ∷ composite ∷ copylock ∷ errorsas ∷ httpresponse
      ∷ loopclosure ∷ lostcancel ∷ nilfunc ∷ printf ∷ shadow ∷ shift ∷ stdmethods ∷ structtag
      ∷ tests ∷ unmarshal ∷ unreachable ∷ unsafeptr ∷ unusedresult ∷ bodyclose ∷ nilerr ∷ osexit
      ∷ nofatal ∷ [])

  -- the loop over the set staticcheck
  unfoldable pub add_sa : List A → List A → List A
  add_sa [] out = out
  add_sa (a ∷ rest) out = add_sa rest (if starts_with (reg.name a) "SA" then out ++ a ∷ [] else out)

  unfoldable pub add_set : List A → List A → List A
  add_set [] out = out
  add_set (a ∷ rest) out = add_set rest (out ++ a ∷ [])

  -- the loop over the other sets
  unfoldable pub add_sets : List (List A) → List A → List A
  unfolding add_set
  add_sets [] out = out
  add_sets (set ∷ sets) out = add_sets sets (add_set set out)

  -- `analyzers`
  unfoldable pub analyzers : List A
  unfolding add_sets add_sa named
  analyzers =
      add_sets (reg.simple ∷ reg.stylecheck ∷ reg.quickfix ∷ []) (add_sa reg.staticcheck named)

  -- the analysers of a set whose name begins with SA
  sa_of : List A → List A
  sa_of [] = []
  sa_of (a ∷ rest) = if starts_with (reg.name a) "SA" then a ∷ sa_of rest else sa_of rest

  add_set_lem : (set out : List A) → add_set set out ≡ out ++ set
  unfolding add_set
  add_set_lem [] out = sym (append-nil out)
  add_set_lem (a ∷ rest) out = add_set_lem rest (out ++ a ∷ []) ∙ append_assoc out (a ∷ []) rest

  add_sa_lem : (set out : List A) → add_sa set out ≡ out ++ sa_of set
  unfolding add_sa sa_of
  add_sa_lem [] out = sym (append-nil out)
  add_sa_lem (a ∷ rest) out = by_test (λ l. add_sa_lem rest l) (starts_with (reg.name a) "SA")
    where
      by_test :
          ((l : List A) → add_sa rest l ≡ l ++ sa_of rest)
          → (b : Bool)
          → add_sa rest (if b then out ++ a ∷ [] else out)
            ≡ out ++ (if b then a ∷ sa_of rest else sa_of rest)
      by_test ih true = ih (out ++ a ∷ []) ∙ append_assoc out (a ∷ []) (sa_of rest)
      by_test ih false = ih out

  -- The list is made of the analysers that are named, of those of staticcheck whose name begins with SA,
  -- and of the three other sets, in this order.
  analyzers_lem :
      analyzers
      ≡ (((named ++ sa_of reg.staticcheck) ++ reg.simple) ++ reg.stylecheck) ++ reg.quickfix
  unfolding analyzers
  analyzers_lem =
      add_set_lem reg.quickfix
        (add_set reg.stylecheck (add_set reg.simple (add_sa reg.staticcheck named)))
      ∙ ap (λ l. l ++ reg.quickfix)
          (add_set_lem reg.stylecheck (add_set reg.simple (add_sa reg.staticcheck named))
            ∙ ap (λ l. l ++ reg.stylecheck)
                (add_set_lem reg.simple (add_sa reg.staticcheck named)
                  ∙ ap (λ l. l ++ reg.simple) (add_sa_lem reg.staticcheck named)))
