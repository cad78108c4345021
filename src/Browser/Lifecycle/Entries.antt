-- ===== src/Browser/Lifecycle/Entries.antt =====
-- Lemmas on the remembered page contexts of packages/browser/src/lifecycle.ts.
use spectro.Prelude.{
  ◌≤◌, ◌≡◌, refl, none, some, List, [], ◌∷◌, ◌++◌, filter, length, ltb, All, arith, Bool-cases, inl,
  inr, Text, text_eq, text_eq_refl,
}
use spectro.Browser.Lifecycle.{NavigationContext, max_page_context_history}
use spectro.Browser.Lifecycle.Calls.{without, lookup, put_context, forget_oldest}

abbrev pub Entries : Type 0
Entries = List (Text × NavigationContext)

pub put_context-without :
    (url : Text) (c : NavigationContext) (es : Entries)
    → put_context url c (without url es) ≡ without url es ++ (url, c) ∷ []
put_context-without url c [] = refl
put_context-without url c (e ∷ es) = ground (arith, put_context-without url c es)

pub lookup-without : (url : Text) (es : Entries) → lookup url (without url es) ≡ none
lookup-without url [] = refl
lookup-without url (e ∷ es) = ground (arith, lookup-without url es)

lookup_last :
    (url : Text) (c : NavigationContext) (es : Entries)
    → lookup url es ≡ none
    → lookup url (es ++ (url, c) ∷ []) ≡ some c
lookup_last url c [] h = rw (text_eq_refl url, lookup) refl
lookup_last url c (e ∷ es) h = ground (arith, lookup_last url c es)

pub length-forget_oldest : (es : Entries) → length (forget_oldest es) ≤ max_page_context_history
unfolding forget_oldest
length-forget_oldest [] = omega arith
length-forget_oldest (e ∷ es) = ground (arith, length-forget_oldest es)

pub lookup-forget_oldest :
    (url : Text) (c : NavigationContext) (es : Entries)
    → lookup url es ≡ none
    → lookup url (forget_oldest (es ++ (url, c) ∷ [])) ≡ some c
unfolding forget_oldest
lookup-forget_oldest url c [] h = rw (text_eq_refl url, lookup) refl
lookup-forget_oldest url c (e ∷ es) h =
    ground (arith, lookup_last url c es, lookup-forget_oldest url c es)

pub All-forget_oldest :
    (P : Text × NavigationContext → Type 0) (es : Entries) → All P es → All P (forget_oldest es)
unfolding forget_oldest
All-forget_oldest P [] h = tt
All-forget_oldest P (e ∷ es) (p, h) =
    elim (Bool-cases (ltb max_page_context_history (length (e ∷ es)))) [
      | inl long ↦ rw (long, forget_oldest) (All-forget_oldest P es h)
      | inr short ↦ rw (short, forget_oldest) (p, h)
    ]

pub All-without :
    (P : Text × NavigationContext → Type 0) (url : Text) (es : Entries)
    → All P es
    → All P (without url es)
All-without P url [] h = tt
All-without P url (e ∷ es) (p, h) = elim (Bool-cases (text_eq e.0 url)) [
  | inl same ↦ rw (same, filter) (All-without P url es h)
  | inr other ↦ rw (other, filter) (p, All-without P url es h)
]
