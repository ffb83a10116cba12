-- ===== src/ApiGen/VlaLaws.antt =====
-- Where `validate_vla` of parser.rs lets a variable length array stand.
use vpp_plugin_rs.ApiGen.VlaTypes.{HasVla, HasVla-field_vla}
use vpp_plugin_rs.Prelude.{
  true, ne→==_false, some, ◌≤◌, ◌==◌, Option, ◌&&◌, not, none, length, ℕ, ◌≡◌, ◌+◌, ◌-◌, refl, ap,
  ◌∙◌, Bool, false, List, [], ◌∷◌, arith,
}
use vpp_plugin_rs.ApiGen.Table.{field_vla}
use vpp_plugin_rs.ApiGen.Syntax.{
  Error, CountDescriptor, string_not_array, vla_field_union, vla_field_not_last, ok, Field,
  TypeEntry, ApiParser,
}
use vpp_plugin_rs.ApiGen.Statements.{
  length_var, refuse_missing, is_some, validate_vla, ensure, vla_depth, validate_fields,
}
use vpp_plugin_rs.ApiGen.Texts.{is_none, ◌===◌}
use vpp_plugin_rs.ApiGen.ServiceLaws.{unbind}
use vpp_plugin_rs.ApiGen.Crc.{Crc}
use Prim.Native.String.{String}

-- No field but the last has a variable length; in a union none has.
abbrev pub IsLaidOut :
    {Hasher : Type 0} → List (String × TypeEntry Hasher) → Bool → List Field → List Field → Type 0
IsLaidOut table is_union fields [] = Unit
IsLaidOut table is_union fields (f ∷ []) = is_union ≡ true → ¬ HasVla table f fields
IsLaidOut table is_union fields (f ∷ g ∷ rest) =
    (¬ HasVla table f fields) × IsLaidOut table is_union fields (g ∷ rest)

no_union_lem :
    (d : Option CountDescriptor) (is_union : Bool) (e : Error) (u : Unit {0})
    → ensure (not (is_some d && is_union)) e ≡ ok u
    → is_union ≡ true
    → d ≡ none
no_union_lem none is_union e u accepted union = refl
no_union_lem (some d) is_union e u accepted union = absurd (cc (rw union at accepted))

none_lem :
    (d : Option CountDescriptor) (i n : ℕ) (e : Error) (u : Unit {0})
    → i + 2 ≤ n
    → ensure (not (is_some d && not (i == n - 1))) e ≡ ok u
    → d ≡ none
none_lem none i n e u h accepted = refl
none_lem (some d) i n e u h accepted =
    absurd (cc (rw (ne→==_false i (n - 1) (λ same. omega arith)) at accepted))

module _ {Hasher : Type 0} (checks : Bool) (c : Crc Hasher) (p : ApiParser Hasher)
    (name : String) where
  -- What one round of the loop has checked.
  checked :
      (fields : List Field) (is_union vla result : Bool) (i : ℕ) (f : Field) (rest : List Field)
      → validate_fields checks c p name fields is_union i (f ∷ rest) vla ≡ ok result
      → (d : Option CountDescriptor) × (field_vla
            (vla_depth checks c p)
            p.global_types_by_name
            f
            fields
          ≡ ok d)
        × (ensure (not (is_some d && is_union)) (vla_field_union f.name name) ≡ ok tt)
        × (ensure (not (is_some d && not (i == length fields - 1))) (vla_field_not_last f.name name)
            ≡ ok tt)
        × (validate_fields checks c p name fields is_union (i + 1) rest (is_some d) ≡ ok result)
  unfolding validate_fields
  checked fields is_union vla result i f rest e =
      let (u₁, e₁, is_array) =
        unbind _ (ensure (not ((f.type === "string") && is_none f.size)) (string_not_array f.name))
          e in
      let (d, e₂, found) =
        unbind _ (field_vla (vla_depth checks c p) p.global_types_by_name f fields) e₁ in
      let (u₃, e₃, no_union) =
        unbind _ (ensure (not (is_some d && is_union)) (vla_field_union f.name name)) e₂ in
      let (u₄, e₄, is_last) =
        unbind _
          (ensure (not (is_some d && not (i == length fields - 1)))
            (vla_field_not_last f.name name))
          e₃ in
      let (u₅, e₅, count_there) = unbind _ (refuse_missing f fields (length_var f.size)) e₄ in
      (d, found, no_union, is_last, e₅)

  validate_fields_lem :
      (fields : List Field) (is_union vla result : Bool) (i : ℕ) (rest : List Field)
      → i + length rest ≡ length fields
      → validate_fields checks c p name fields is_union i rest vla ≡ ok result
      → IsLaidOut p.global_types_by_name is_union fields rest
  unfolding validate_fields
  validate_fields_lem fields is_union vla result i [] n e = tt
  validate_fields_lem fields is_union vla result i (f ∷ []) n e = λ union has.
      let (d, found, no_union, is_last, rest_runs) = checked fields is_union vla result i f [] e in
      HasVla-field_vla p.global_types_by_name has (vla_depth checks c p)
        (found ∙ ap ok (no_union_lem d is_union _ tt no_union union))
  validate_fields_lem fields is_union vla result i (f ∷ g ∷ rest) n e =
      let (d, found, no_union, is_last, e') = checked fields is_union vla result i f (g ∷ rest) e in
      (
        λ has.
            HasVla-field_vla p.global_types_by_name has (vla_depth checks c p)
              (found ∙ ap ok (none_lem d i (length fields) _ tt (omega arith) is_last)),
        validate_fields_lem fields is_union (is_some d) result (i + 1) (g ∷ rest) (omega arith) e',
      )

  -- In a block of fields that validate_vla accepts no field before the last one, and in a union no
  -- field at all, has a variable length: it is not declared as string with empty brackets, it is
  -- no array whose count is one of the fields, and it refers to no type of the table whose last
  -- field has a variable length in this sense, nor to an alias of such a string.
  pub validate_vla-IsLaidOut :
      (fields : List Field) (is_union result : Bool)
      → validate_vla checks c p name fields is_union ≡ ok result
      → IsLaidOut p.global_types_by_name is_union fields fields
  unfolding validate_vla
  validate_vla-IsLaidOut fields is_union result e =
      validate_fields_lem fields is_union false result 0 fields (omega arith) e
