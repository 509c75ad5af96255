-- ===== src/Query/Lookup.antt =====
-- Which parameters the options give, and that they can be encoded if the options' texts can.
use workos_node.Prelude.{
  ℕ, ◌≡◌, refl, sym, ap, ◌⊎◌, inl, inr, Bool-cases, Option, none, some, List, [], ◌∷◌, All, IsIn,
  here, behind, IsIn-append_left, IsIn-append_right, All-append, map, arith,
}
use workos_node.Js.{same_codes}
use workos_node.Js.Text.{same_codes_iff}
use workos_node.Query.{
  QueryValue, undefined, text, texts, object, Options, Params, names, value_of, field_of, sub_name,
  of_texts, of_fields, params_of_value, params_of_keys, params_of, to_query_string,
}
use workos_node.Query.RoundTrip.{
  IsScalarText, IsParam, in_utf8, parse_query, parse_query-to_query_string,
}

abbrev IsMaybe : Option (List ℕ) → Type 0
IsMaybe none = Unit
IsMaybe (some t) = IsScalarText t

-- A value whose texts can be encoded.
abbrev pub IsValue : QueryValue → Type 0
IsValue undefined = Unit
IsValue (text t) = IsScalarText t
IsValue (texts items) = All IsScalarText items
IsValue (object fields) =
    All (λ (f : List ℕ × Option (List ℕ)). IsScalarText f.0 × IsMaybe f.1) fields

abbrev pub IsEntry : List ℕ × QueryValue → Type 0
IsEntry entry = IsScalarText entry.0 × IsValue entry.1

-- A sort keeps what it sorts.
abbrev pub Keeps : (List (List ℕ) → List (List ℕ)) → Type 0
Keeps sort = (key : List ℕ) (keys : List (List ℕ)) → IsIn key keys → IsIn key (sort keys)

value_of_found :
    (options : Options) (key : List ℕ)
    → All IsEntry options
    → (value_of options key ≡ undefined) ⊎ (IsScalarText key × IsValue (value_of options key))
unfolding value_of
value_of_found [] key h = inl refl
value_of_found ((k, v) ∷ rest) key ((hk, hv), h) = elim (Bool-cases (same_codes k key)) [
  | inl e ↦ let same : k ≡ key = (same_codes_iff k key).0 e in inr (rw (← same) hk, rw e hv)
  | inr e ↦ rw e (value_of_found rest key h)
]

field_of_found :
    (fields : List (List ℕ × Option (List ℕ))) (key : List ℕ)
    → All (λ (f : List ℕ × Option (List ℕ)). IsScalarText f.0 × IsMaybe f.1) fields
    → (field_of fields key ≡ none) ⊎ (IsScalarText key × IsMaybe (field_of fields key))
unfolding field_of
field_of_found [] key h = inl refl
field_of_found ((k, v) ∷ rest) key ((hk, hv), h) = elim (Bool-cases (same_codes k key)) [
  | inl e ↦ let same : k ≡ key = (same_codes_iff k key).0 e in inr (rw (← same) hk, rw e hv)
  | inr e ↦ rw e (field_of_found rest key h)
]

of_texts-IsParam :
    (key : List ℕ) (items : List (List ℕ))
    → IsScalarText key
    → All IsScalarText items
    → All IsParam (of_texts key items)
unfolding of_texts
of_texts-IsParam key [] hk h = tt
of_texts-IsParam key (item ∷ rest) hk (hi, h) = ((hk, hi), of_texts-IsParam key rest hk h)

sub_name-IsScalarText :
    (key sub : List ℕ) → IsScalarText key → IsScalarText sub → IsScalarText (sub_name key sub)
sub_name-IsScalarText key sub hk hs =
    All-append _ key _ hk (omega arith, All-append _ sub _ hs (omega arith, tt))

of_fields-IsParam :
    (key : List ℕ) (fields : List (List ℕ × Option (List ℕ))) (subs : List (List ℕ))
    → IsScalarText key
    → All (λ (f : List ℕ × Option (List ℕ)). IsScalarText f.0 × IsMaybe f.1) fields
    → All IsParam (of_fields key fields subs)
unfolding of_fields
of_fields-IsParam key fields [] hk h = tt
of_fields-IsParam key fields (sub ∷ subs) hk h =
    with_field (field_of fields sub) (of_fields-IsParam key fields subs hk h)
      (field_of_found fields sub h)
  where
    with_field :
        (v : Option (List ℕ))
        → All IsParam (of_fields key fields subs)
        → (v ≡ none) ⊎ (IsScalarText sub × IsMaybe v)
        → All IsParam (elim v [
          | none ↦ of_fields key fields subs
          | some t ↦ (sub_name key sub, t) ∷ of_fields key fields subs
        ])
    with_field none behind_it c = behind_it
    with_field (some t) behind_it (inl e) = absurd (ground arith)
    with_field (some t) behind_it (inr (hs, ht)) =
        ((sub_name-IsScalarText key sub hk hs, ht), behind_it)

module _ (sort : List (List ℕ) → List (List ℕ)) where
  params_of_value-IsParam :
      (key : List ℕ) (v : QueryValue)
      → (v ≡ undefined) ⊎ (IsScalarText key × IsValue v)
      → All IsParam (params_of_value sort key v)
  unfolding params_of_value
  params_of_value-IsParam key undefined c = tt
  params_of_value-IsParam key (text t) (inl e) = absurd (ground arith)
  params_of_value-IsParam key (text t) (inr (hk, h)) = ((hk, h), tt)
  params_of_value-IsParam key (texts items) (inl e) = absurd (ground arith)
  params_of_value-IsParam key (texts items) (inr (hk, h)) = of_texts-IsParam key items hk h
  params_of_value-IsParam key (object fields) (inl e) = absurd (ground arith)
  params_of_value-IsParam key (object fields) (inr (hk, h)) =
      of_fields-IsParam key fields (sort (names fields)) hk h

  params_of_keys-IsParam :
      (options : Options) (keys : List (List ℕ))
      → All IsEntry options
      → All IsParam (params_of_keys sort options keys)
  unfolding params_of_keys
  params_of_keys-IsParam options [] h = tt
  params_of_keys-IsParam options (key ∷ keys) h =
      All-append IsParam (params_of_value sort key (value_of options key)) _
        (params_of_value-IsParam key (value_of options key) (value_of_found options key h))
        (params_of_keys-IsParam options keys h)

  pub params_of-IsParam :
      (options : Options) → All IsEntry options → All IsParam (params_of sort options)
  unfolding params_of
  params_of-IsParam options h = params_of_keys-IsParam options (sort (names options)) h

  named :
      (options : Options) (key v : List ℕ)
      → value_of options key ≡ text v
      → IsIn key (names options)
  unfolding value_of
  named [] key v e = absurd (ground arith)
  named ((k, w) ∷ rest) key v e = elim (Bool-cases (same_codes k key)) [
    | inl same ↦ here (sym ((same_codes_iff k key).0 same))
    | inr other ↦ behind (named rest key v (ground arith))
  ]

  params_of_keys-mem :
      (options : Options) (key v : List ℕ) (keys : List (List ℕ))
      → value_of options key ≡ text v
      → IsIn key keys
      → IsIn (key, v) (params_of_keys sort options keys)
  unfolding params_of_keys params_of_value
  params_of_keys-mem options key v [] e m = elim m [ ]
  params_of_keys-mem options key v (k ∷ keys) e (here same) =
      IsIn-append_left (key, v) (params_of_value sort k (value_of options k))
        (params_of_keys sort options keys) (rw (← same, e) (here refl))
  params_of_keys-mem options key v (k ∷ keys) e (behind m) =
      IsIn-append_right (key, v) (params_of_value sort k (value_of options k))
        (params_of_keys sort options keys) (params_of_keys-mem options key v keys e m)

  map-mem : (p : List ℕ × List ℕ) (ps : Params) → IsIn p ps → IsIn (in_utf8 p) (map in_utf8 ps)
  map-mem p [] m = elim m [ ]
  map-mem p (q ∷ ps) (here e) = here (ap in_utf8 e)
  map-mem p (q ∷ ps) (behind m) = behind (map-mem p ps m)

  -- Options whose texts can be encoded give a query string, in which each text among the options is
  -- read back under its name.
  pub to_query_string_reads :
      (options : Options)
      → Keeps sort
      → All IsEntry options
      → (q : List ℕ) × (to_query_string sort options ≡ some q)
        × ((key v : List ℕ)
            → value_of options key ≡ text v
            → IsIn (in_utf8 (key, v)) (parse_query q))
  unfolding params_of
  to_query_string_reads options keeps h =
      let (q, printed, read) =
        parse_query-to_query_string sort options (params_of-IsParam options h) in
      (
        q,
        printed,
        (λ key v e. rw read (
            map-mem (key, v) (params_of sort options)
              (params_of_keys-mem options key v (sort (names options)) e
                (keeps key (names options) (named options key v e))))),
      )
