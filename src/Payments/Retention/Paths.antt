-- ===== src/Payments/Retention/Paths.antt =====
-- packages/core-payments/src/webhookRetention.ts: what `readPath` finds after `writePath`.
use ai_client_acquisition_os.Common.{
  ◌≡◌, refl, sym, ap, subst, ◌∙◌, Bool, true, false, List, [], ◌∷◌, Option, none, some, String,
  ◌=ˢ◌, =ˢ_iff, if◌then◌else◌, Bool-cases, inl, inr, arith,
}
use ai_client_acquisition_os.Payments.Retention.{
  Json, Fields, null, boolean, number, text, arr, obj, end, field, lookup, then_read, read_path,
  set_key, fields_of, write_path,
}

lookup-set_key :
    (j k : String) (value : Json) (fields : Fields)
    → lookup j (set_key k value fields) ≡ (if k =ˢ j then some value else lookup j fields)
unfolding lookup set_key
lookup-set_key j k value end = refl
lookup-set_key j k value (field i old rest) =
    ground (arith, =ˢ_iff i k, =ˢ_iff i j, =ˢ_iff k j, lookup-set_key j k value rest)

-- Neither path is a prefix of the other.
abbrev pub apart : List String → List String → Bool
apart [] ys = false
apart (x ∷ xs) [] = false
apart (x ∷ xs) (y ∷ ys) = let rest = apart xs ys in if x =ˢ y then rest else true

=ˢ-refl : (s : String) → (s =ˢ s) ≡ true
=ˢ-refl s = (=ˢ_iff s s).1 refl

lookup-set_key_self :
    (k : String) (value : Json) (fields : Fields) → lookup k (set_key k value fields) ≡ some value
lookup-set_key_self k value fields = rw (lookup-set_key k k value fields, =ˢ-refl k) refl

lookup-set_key_other :
    (j k : String) (value : Json) (fields : Fields)
    → (j =ˢ k) ≡ false
    → lookup j (set_key k value fields) ≡ lookup j fields
lookup-set_key_other j k value fields other =
    ground (arith, lookup-set_key j k value fields, =ˢ_iff j k, =ˢ_iff k j)

pub read_path-write_path :
    (target : Fields) (part : String) (parts : List String) (value : Json)
    → read_path (obj (write_path target (part ∷ parts) value)) (part ∷ parts) ≡ some value
unfolding read_path write_path
read_path-write_path target part [] value =
    ap (then_read (λ w. some w)) (lookup-set_key_self part value target)
read_path-write_path target part (next ∷ parts) value =
    ap (then_read (λ w. read_path w (next ∷ parts))) (
      lookup-set_key_self part
        (obj (write_path (fields_of (lookup part target)) (next ∷ parts) value)) target)
    ∙ read_path-write_path (fields_of (lookup part target)) next parts value

-- Reading below what is no object finds nothing, as reading below a new object does.
read_path-fields_of :
    (found : Option Json) (part : String) (parts : List String)
    → then_read (λ w. read_path w (part ∷ parts)) found
      ≡ read_path (obj (fields_of found)) (part ∷ parts)
unfolding read_path lookup
read_path-fields_of none part parts = refl
read_path-fields_of (some null) part parts = refl
read_path-fields_of (some (boolean b)) part parts = refl
read_path-fields_of (some (number n)) part parts = refl
read_path-fields_of (some (text s)) part parts = refl
read_path-fields_of (some (arr items)) part parts = refl
read_path-fields_of (some (obj fields)) part parts = refl

apart_nil : (p : List String) → apart p [] ≡ false
apart_nil [] = refl
apart_nil (x ∷ p) = refl

apart_last : (a b : String) (p : List String) → apart (a ∷ p) (b ∷ []) ≡ true → (a =ˢ b) ≡ false
apart_last a b p h = ground (arith, apart_nil p)

apart_below :
    (a b : String) (p q : List String)
    → apart (a ∷ p) (b ∷ q) ≡ true
    → (a =ˢ b) ≡ true
    → apart p q ≡ true
apart_below a b p q h same = ground arith

-- Both paths go through the key `a`.
read_path_below :
    (a p next : String) (ps qs : List String) (target : Fields) (value : Json)
    → ((fields : Fields)
        → read_path (obj (write_path fields (next ∷ qs) value)) (p ∷ ps)
          ≡ read_path (obj fields) (p ∷ ps))
    → read_path (obj (write_path target (a ∷ (next ∷ qs)) value)) (a ∷ (p ∷ ps))
      ≡ read_path (obj target) (a ∷ (p ∷ ps))
unfolding read_path write_path
read_path_below a p next ps qs target value ih =
    let fields = fields_of (lookup a target) in
    ap (then_read (λ w. read_path w (p ∷ ps)))
      (lookup-set_key_self a (obj (write_path fields (next ∷ qs) value)) target)
    ∙ ih fields
    ∙ sym (read_path-fields_of (lookup a target) p ps)

read_path_aside :
    (a b next : String) (ps qs : List String) (target : Fields) (value : Json)
    → (a =ˢ b) ≡ false
    → read_path (obj (write_path target (b ∷ (next ∷ qs)) value)) (a ∷ ps)
      ≡ read_path (obj target) (a ∷ ps)
unfolding read_path write_path
read_path_aside a b next ps qs target value other = ap (then_read (λ w. read_path w ps)) (
    lookup-set_key_other a b (obj (write_path (fields_of (lookup b target)) (next ∷ qs) value))
      target other)

-- What was there on another path is there still.
pub read_path-write_apart :
    (p q : List String) (target : Fields) (value : Json)
    → apart p q ≡ true
    → read_path (obj (write_path target q value)) p ≡ read_path (obj target) p
unfolding read_path write_path
read_path-write_apart [] q target value h = cc
read_path-write_apart (a ∷ ps) [] target value h = refl
read_path-write_apart (a ∷ ps) (b ∷ []) target value h =
    ap (then_read (λ w. read_path w ps))
      (lookup-set_key_other a b value target (apart_last a b ps h))
read_path-write_apart (a ∷ []) (b ∷ (next ∷ qs)) target value h =
    read_path_aside a b next [] qs target value (ground arith)
read_path-write_apart (a ∷ (p ∷ ps)) (b ∷ (next ∷ qs)) target value h = elim (Bool-cases (a =ˢ b)) [
  | inl same ↦
      let ih = λ (fields : Fields).
        read_path-write_apart (p ∷ ps) (next ∷ qs) fields value
          (apart_below a b (p ∷ ps) (next ∷ qs) h same) in
      subst
        (λ c.
          read_path (obj (write_path target (c ∷ (next ∷ qs)) value)) (a ∷ (p ∷ ps))
          ≡ read_path (obj target) (a ∷ (p ∷ ps)))
        ((=ˢ_iff a b).0 same) (read_path_below a p next ps qs target value ih)
  | inr other ↦ read_path_aside a b next (p ∷ ps) qs target value other
]
