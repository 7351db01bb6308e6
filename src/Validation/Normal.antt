-- ===== src/Validation/Normal.antt =====
-- What the readers of a payload let through.
use intereng_api.Base.{
  ◌≤◌, String, ◌≡◌, refl, eq_iff, sym, ap, ◌∙◌, arith, true, Option, none, some, inl, inr,
  Bool-cases,
}
use intereng_api.Base.Text
use intereng_api.Base.Text.{trim, trim-trim}
use intereng_api.Json.{Json, null, boolean, number, text, array, object, Fields, field, at}
use intereng_api.Http.{ok, >>=-Returns}
use intereng_api.Validation.Patterns.{is_id}
use intereng_api.Validation.{StringOptions, between, string_value, action_string, action_id}

-- A text that a reader of texts lets through.
pub record Accepted (o : StringOptions) (s : String) : Type 0 where
  pub long_enough : o.min ≤ Text.length s
  pub short_enough : Text.length s ≤ o.max
  pub again : string_value o (some (text s)) ≡ ok s

text-Accepted :
    (o : StringOptions) (s : String)
    → o.min ≤ Text.length s
    → Text.length s ≤ o.max
    → (o.trimmed ≡ true → trim s ≡ s)
    → Accepted o s
unfolding string_value
text-Accepted o s l m t = record {
  long_enough = l;
  short_enough = m;
  again = elim (Bool-cases o.trimmed) [ inl e ↦ ground (arith, t e) | inr e ↦ ground arith ];
}

string_value-Accepted :
    (o : StringOptions) (v : Option Json) (s : String) → string_value o v ≡ ok s → Accepted o s
unfolding string_value
string_value-Accepted o none s h = cc
string_value-Accepted o (some null) s h = cc
string_value-Accepted o (some (boolean b)) s h = cc
string_value-Accepted o (some (number n)) s h = cc
string_value-Accepted o (some (array vs)) s h = cc
string_value-Accepted o (some (object fs)) s h = cc
string_value-Accepted o (some (text t)) s h = elim (Bool-cases o.trimmed) [
  | inl e ↦
      let same : trim t ≡ s = ground arith in
      text-Accepted o s (ground arith) (ground arith) (λ k. ap trim (sym same) ∙ trim-trim t ∙ same)
  | inr e ↦
      let same : t ≡ s = ground arith in
      text-Accepted o s (ground arith) (ground arith) (λ k. absurd (ground arith))
]

-- An id that is read from a payload has between 1 and 128 characters and the form of ids, and the reader
-- of ids lets the id that was read through again as it is, whatever field holds it.
pub action_id-Accepted :
    (fs : Fields) (key : String) (s : String)
    → action_id fs key ≡ ok s
    → (is_id s ≡ true)
      × Accepted (between 1 128) s
      × ((other : Fields) (name : String) → action_id (field name (text s) other) name ≡ ok s)
unfolding action_id action_string at
action_id-Accepted fs key s h =
    let (v, e, h1) = >>=-Returns (action_string fs key (between 1 128)) _ h in
    let same : v ≡ s = ground arith in
    let good : is_id s ≡ true = ground arith in
    let fine = string_value-Accepted (between 1 128) (at key fs) s (e ∙ ap ok same) in
    (good, fine, λ other name. rw ((eq_iff name name).1 refl, fine.again, good) refl)
