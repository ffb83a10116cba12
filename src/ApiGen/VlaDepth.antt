-- ===== src/ApiGen/VlaDepth.antt =====
-- `Field::vla` of parser.rs comes to an end: every type refers to types registered before it.
use vpp_plugin_rs.Prelude.{
  append_assoc, append-nil, length-append, subst, ◌&&◌, Bool-cases, ℕ, zero, suc, ◌≡◌, ◌≤◌, ◌⊎◌,
  inl, inr, refl, ap, ◌∙◌, sym, Option, none, some, List, [], ◌∷◌, ◌++◌, length, arith,
}
use vpp_plugin_rs.ApiGen.Table.{
  field_vla, last_vla_with, details_vla_with, count_field_of, is_unsized_array, counted_vla,
  entry_vla, lookup_opt, last_field, referred_type, lookup, field_vla_with,
}
use vpp_plugin_rs.ApiGen.Syntax.{CountDescriptor, ok, Field, TypeEntry, TypeDetails, Result}
use vpp_plugin_rs.ApiGen.Texts.{◌===◌}
use Prim.Native.String.{String}

abbrev pub Table : Type 0 → Type 0
Table Hasher = List (String × TypeEntry Hasher)

abbrev pub fields_of : TypeDetails → List Field
fields_of (TypeDetails.typedef_block fields) = fields
fields_of _ = []

abbrev pub IsOk {ℓ} : {A : Type ℓ} → Result A → Type ℓ
IsOk {A = A} r = (a : A) × (r ≡ ok a)

abbrev pub or_else {ℓ} : {A : Type ℓ} → A → Option A → A
or_else a none = a
or_else a (some b) = b

some-inj {ℓ} : {A : Type ℓ} {a b : A} → some a ≡ some b → a ≡ b
some-inj {a = a} e = ap (or_else a) e

module _ {Hasher : Type 0} where
  abbrev pub IsResolved : Table Hasher → Option String → Type 0
  IsResolved before none = Unit
  IsResolved before (some n) = (e : TypeEntry Hasher) × (lookup n before ≡ some e)

  abbrev pub AllResolved : Table Hasher → List Field → Type 0
  AllResolved before [] = Unit
  AllResolved before (f ∷ fs) = IsResolved before (referred_type f.type) × AllResolved before fs

  abbrev pub IsRankedFrom : Table Hasher → Table Hasher → Type 0
  IsRankedFrom before [] = Unit
  IsRankedFrom before ((k, e) ∷ ts) =
      AllResolved before (fields_of e.details) × IsRankedFrom (before ++ (k, e) ∷ []) ts

  -- The fields of each type refer to types before it in the table.
  unfoldable pub IsRanked : Table Hasher → Type 0
  IsRanked table = IsRankedFrom [] table

  lookup-append :
      (n : String) (b ts : Table Hasher) (e : TypeEntry Hasher)
      → lookup n b ≡ some e
      → lookup n (b ++ ts) ≡ some e
  lookup-append n [] ts e h = cc
  lookup-append n ((k, d) ∷ b) ts e h = ground (arith, lookup-append n b ts e)

  lookup-snoc :
      (n : String) (b : Table Hasher) (k : String) (d e : TypeEntry Hasher)
      → lookup n (b ++ (k, d) ∷ []) ≡ some e
      → (lookup n b ≡ some e) ⊎ (e ≡ d)
  lookup-snoc n [] k d e h = ground arith
  lookup-snoc n ((j, c) ∷ b) k d e h = ground (arith, lookup-snoc n b k d e)

  counted_vla-IsOk :
      (rec : TypeEntry Hasher → Result (Option CountDescriptor)) (table : Table Hasher) (f : Field)
      (count : Option Field) (o : Option (TypeEntry Hasher))
      → lookup_opt (referred_type f.type) table ≡ o
      → ((e : TypeEntry Hasher) → o ≡ some e → IsOk (rec e))
      → IsOk (counted_vla rec table f count)
  counted_vla-IsOk rec table f (some count) o h k = (_, refl)
  counted_vla-IsOk rec table f none none h k = rw h (_, refl)
  counted_vla-IsOk rec table f none (some e) h k = let (d, r) = k e refl in rw (h, r) (_, refl)

  field_vla_with-IsOk :
      (rec : TypeEntry Hasher → Result (Option CountDescriptor)) (table : Table Hasher) (f : Field)
      (others : List Field)
      → ((e : TypeEntry Hasher) → lookup_opt (referred_type f.type) table ≡ some e → IsOk (rec e))
      → IsOk (field_vla_with rec table f others)
  unfolding field_vla_with
  field_vla_with-IsOk rec table f others k =
      elim (Bool-cases (is_unsized_array f.size && (f.type === "string"))) [
        | inl b ↦ rw b (_, refl)
        | inr b ↦ rw b (counted_vla-IsOk rec table f (count_field_of f.size others) _ refl k)
      ]

  -- The types of `before` can be looked into, on fuel for each of them.
  abbrev pub Answers : Table Hasher → Table Hasher → Type 0
  Answers table before =
      (n : String) (e : TypeEntry Hasher) (fuel : ℕ)
      → lookup n before ≡ some e
      → length before ≤ fuel
      → IsOk (entry_vla fuel table e)

  last_field-IsResolved :
      (before : Table Hasher) (fields : List Field) (f : Field)
      → AllResolved before fields
      → last_field fields ≡ some f
      → IsResolved before (referred_type f.type)
  last_field-IsResolved before [] f h e = cc
  last_field-IsResolved before (g ∷ []) f (h, t) e =
      subst (λ x. IsResolved before (referred_type x.type)) (some-inj e) h
  last_field-IsResolved before (g ∷ g' ∷ fs) f (h, t) e =
      last_field-IsResolved before (g' ∷ fs) f t e

  found_before :
      (table before ts : Table Hasher) (o : Option String) (e : TypeEntry Hasher)
      → table ≡ before ++ ts
      → IsResolved before o
      → lookup_opt o table ≡ some e
      → (n : String) × (lookup n before ≡ some e)
  found_before table before ts none e split r h = cc
  found_before table before ts (some n) e split (d, r) h =
      let whole = ap (lookup n) split ∙ lookup-append n before ts d r in (n, r ∙ (sym whole ∙ h))

  module _ (table before ts : Table Hasher) (split : table ≡ before ++ ts)
      (known : Answers table before) where
    last_vla-IsOk :
        (fuel : ℕ) (fields : List Field) (o : Option Field)
        → length before ≤ fuel
        → AllResolved before fields
        → last_field fields ≡ o
        → IsOk (last_vla_with (entry_vla fuel table) table fields o)
    last_vla-IsOk fuel fields none enough r h = (_, refl)
    last_vla-IsOk fuel fields (some f) enough r h =
        field_vla_with-IsOk (entry_vla fuel table) table f fields λ e found.
          let (n, l) =
            found_before table before ts (referred_type f.type) e split
              (last_field-IsResolved before fields f r h) found in
          known n e fuel l enough

    details-IsOk :
        (fuel : ℕ) (d : TypeDetails)
        → length before ≤ fuel
        → AllResolved before (fields_of d)
        → IsOk (details_vla_with (entry_vla fuel table) table d)
    unfolding details_vla_with
    details-IsOk fuel (TypeDetails.typedef_block fields) enough r =
        last_vla-IsOk fuel fields (last_field fields) enough r refl
    details-IsOk fuel (TypeDetails.typedef type size) enough r = (_, refl)
    details-IsOk fuel (TypeDetails.union fields) enough r = (_, refl)
    details-IsOk fuel (TypeDetails.enum size variants) enough r = (_, refl)
    details-IsOk fuel (TypeDetails.enum_flag size variants) enough r = (_, refl)

    Answers-snoc :
        (k : String) (e : TypeEntry Hasher)
        → AllResolved before (fields_of e.details)
        → Answers table (before ++ (k, e) ∷ [])
    Answers-snoc k e r n d zero h enough =
        absurd (omega (arith, enough, length-append before ((k, e) ∷ [])))
    Answers-snoc k e r n d (suc fuel) h enough = elim (lookup-snoc n before k e d h) [
      | inl old ↦
          known n d (suc fuel) old (omega (arith, enough, length-append before ((k, e) ∷ [])))
      | inr new ↦
          subst (λ x. IsOk (entry_vla (suc fuel) table x)) (sym new)
            (unfold entry_vla in
              details-IsOk fuel e.details
                (omega (arith, enough, length-append before ((k, e) ∷ []))) r)
    ]

  rank_lem :
      (table before ts : Table Hasher)
      → table ≡ before ++ ts
      → Answers table before
      → IsRankedFrom before ts
      → Answers table table
  rank_lem table before [] split known r =
      subst (Answers table) (sym (split ∙ append-nil before)) known
  rank_lem table before ((k, e) ∷ ts) split known (r, rest) =
      rank_lem table (before ++ (k, e) ∷ []) ts (split ∙ sym (append_assoc before ((k, e) ∷ []) ts))
        (Answers-snoc table before ((k, e) ∷ ts) split known k e r) rest

  lookup_opt-some :
      (table : Table Hasher) (o : Option String) (e : TypeEntry Hasher)
      → lookup_opt o table ≡ some e
      → (n : String) × (lookup n table ≡ some e)
  lookup_opt-some table none e h = cc
  lookup_opt-some table (some n) e h = (n, h)

  -- Fuel for every type of a ranked table is enough.
  pub field_vla-IsOk :
      (table : Table Hasher) (f : Field) (others : List Field) (fuel : ℕ)
      → IsRanked table
      → length table ≤ fuel
      → IsOk (field_vla fuel table f others)
  unfolding field_vla IsRanked
  field_vla-IsOk table f others fuel r enough =
      field_vla_with-IsOk (entry_vla fuel table) table f others λ e found.
        let all = rank_lem table [] table refl (λ n e fuel h enough. absurd cc) r in
        let (n, l) = lookup_opt-some table (referred_type f.type) e found in all n e fuel l enough
