-- ===== src/ApiGen/Ranked.antt =====
-- `process_statements` of parser.rs registers a type only where those that it refers to are there.
use vpp_plugin_rs.ApiGen.VlaDepth.{
  IsRanked, IsResolved, fields_of, IsRankedFrom, AllResolved, Table,
}
use vpp_plugin_rs.ApiGen.Statements.{
  register, combine_entry, process_all, process_statements, length_var, validate_vla, is_some,
  process_typedef, combine_fields, process_statement, crc_for_fields, combine_type, Registered,
}
use vpp_plugin_rs.Prelude.{
  Bool-cases, append_assoc, append-nil, if◌then◌else◌, ℕ, ◌≡◌, inl, inr, refl, ap, subst, ◌∙◌, sym,
  Bool, true, false, Option, none, some, List, [], ◌∷◌, ◌++◌,
}
use vpp_plugin_rs.ApiGen.Table.{lookup, referred_type}
use vpp_plugin_rs.ApiGen.Crc.{
  statement_crc_data, enum_variants_from_block_statements, crc_data_for_enum_block_statements, Crc,
}
use vpp_plugin_rs.ApiGen.ServiceLaws.{unbind, ok-inj}
use vpp_plugin_rs.ApiGen.Syntax.{Flag, ok, Statement, Field, TypeEntry, ApiParser, ◌>>=◌}
use Prim.Native.String.{String}

module _ {Hasher : Type 0} where
  IsRanked-snoc :
      (before ts : Table Hasher) (k : String) (e : TypeEntry Hasher)
      → IsRankedFrom before ts
      → AllResolved (before ++ ts) (fields_of e.details)
      → IsRankedFrom before (ts ++ (k, e) ∷ [])
  IsRanked-snoc before [] k e r a =
      (subst (λ b. AllResolved b (fields_of e.details)) (append-nil before) a, tt)
  IsRanked-snoc before ((j, d) ∷ ts) k e (r, rest) a = (
    r,
    IsRanked-snoc (before ++ (j, d) ∷ []) ts k e rest (
        subst (λ b. AllResolved b (fields_of e.details))
          (sym (append_assoc before ((j, d) ∷ []) ts)) a),
  )

  abbrev pub EntryResolved : Table Hasher → Option (String × TypeEntry Hasher) → Type 0
  EntryResolved table none = Unit
  EntryResolved table (some (k, e)) = AllResolved table (fields_of e.details)

  if_table :
      (b : Bool) (x y : ApiParser Hasher)
      → y.global_types_by_name ≡ x.global_types_by_name
      → (if b then x else y).global_types_by_name ≡ x.global_types_by_name
  if_table true x y h = refl
  if_table false x y h = h

module _ {Hasher : Type 0} (checks : Bool) (c : Crc Hasher) where
  combine_entry_lem :
      (n : String) (h h' : Hasher) (o : Option (TypeEntry Hasher))
      → combine_entry checks c h n o ≡ ok h'
      → (d : TypeEntry Hasher) × (o ≡ some d)
  combine_entry_lem n h h' none e = absurd cc
  combine_entry_lem n h h' (some d) e = (d, refl)

  combine_type-IsResolved :
      (p : ApiParser Hasher) (h h' : Hasher) (o : Option String)
      → combine_type checks c p h o ≡ ok h'
      → IsResolved p.global_types_by_name o
  combine_type-IsResolved p h h' none e = tt
  combine_type-IsResolved p h h' (some n) e =
      combine_entry_lem n h h' (lookup n p.global_types_by_name) e

  combine_fields-AllResolved :
      (p : ApiParser Hasher) (h h' : Hasher) (fields : List Field)
      → combine_fields checks c p h fields ≡ ok h'
      → AllResolved p.global_types_by_name fields
  unfolding combine_fields
  combine_fields-AllResolved p h h' [] e = tt
  combine_fields-AllResolved p h h' (f ∷ fields) e =
      let (h₁, e₁, typed) = unbind _ (combine_type checks c p h (referred_type f.type)) e in
      (
        combine_type-IsResolved p h h₁ (referred_type f.type) typed,
        combine_fields-AllResolved p h₁ h' fields e₁,
      )

  crc_for_fields-AllResolved :
      (p : ApiParser Hasher) (h : Hasher) (fields : List Field)
      → crc_for_fields checks c p fields ≡ ok h
      → AllResolved p.global_types_by_name fields
  unfolding crc_for_fields
  crc_for_fields-AllResolved p h fields e = combine_fields-AllResolved p _ h fields e

  -- A result whose parser has the table of `p` and whose entry is resolved in it.
  abbrev pub Registers : ApiParser Hasher → Registered Hasher → Type 0
  Registers p (q, entry) =
      (q.global_types_by_name ≡ p.global_types_by_name) × EntryResolved p.global_types_by_name entry

  typedef-Registers :
      (p : ApiParser Hasher) (import : Option String) (f : Field) (flags : List Flag)
      (var : Option String) (r : Registered Hasher)
      → process_typedef checks c p import f flags var ≡ ok r
      → Registers p r
  typedef-Registers p import f flags none r e =
      subst (Registers p) (ok-inj e) (if_table (is_some import) p _ refl, tt)
  typedef-Registers p import f flags (some v) r e = absurd cc

  define-Registers :
      (p : ApiParser Hasher) (b : Bool) (fields : List Field) (r : Registered Hasher)
      (after : Hasher → ApiParser Hasher)
      → ((h : Hasher) → (after h).global_types_by_name ≡ p.global_types_by_name)
      → (if b then ok (p, none) else (crc_for_fields checks c p fields >>= λ h. ok (after h, none)))
        ≡ ok r
      → Registers p r
  define-Registers p true fields r after k e = subst (Registers p) (ok-inj e) (refl, tt)
  define-Registers p false fields r after k e =
      let (h, e₁, summed) = unbind _ (crc_for_fields checks c p fields) e in
      subst (Registers p) (ok-inj e₁) (k h, tt)

  statement-Registers :
      (p : ApiParser Hasher) (import : Option String) (s : Statement) (r : Registered Hasher)
      → process_statement checks c p import s ≡ ok r
      → Registers p r
  unfolding process_statement
  statement-Registers p import (Statement.define name options fields flags comment) r e =
      let (vla, e₁, valid) = unbind _ (validate_vla checks c p name fields false) e in
      define-Registers p (is_some import) fields r _ (λ h. refl) e₁
  statement-Registers p import (Statement.typedef_block name options fields flags) r e =
      let (vla, e₁, valid) = unbind _ (validate_vla checks c p name fields false) e in
      let (crc, e₂, summed) = unbind _ (crc_for_fields checks c p fields) e₁ in
      subst (Registers p) (ok-inj e₂)
        (if_table (is_some import) p _ refl, crc_for_fields-AllResolved p crc fields summed)
  statement-Registers p import (Statement.typedef field flags) r e =
      typedef-Registers p import field flags (length_var field.size) r e
  statement-Registers p import (Statement.union name options fields comment) r e =
      let (vla, e₁, valid) = unbind _ (validate_vla checks c p name fields true) e in
      let (crc, e₂, summed) = unbind _ (crc_for_fields checks c p fields) e₁ in
      subst (Registers p) (ok-inj e₂) (if_table (is_some import) p _ refl, tt)
  statement-Registers p import (Statement.enum name size block) r e =
      let (text, e₁, shown) = unbind _ (crc_data_for_enum_block_statements checks block) e in
      let (variants, e₂, numbered) =
        unbind _ (enum_variants_from_block_statements checks block) e₁ in
      subst (Registers p) (ok-inj e₂) (if_table (is_some import) p _ refl, tt)
  statement-Registers p import (Statement.enum_flag name size block) r e =
      let (text, e₁, shown) = unbind _ (crc_data_for_enum_block_statements checks block) e in
      let (variants, e₂, numbered) =
        unbind _ (enum_variants_from_block_statements checks block) e₁ in
      subst (Registers p) (ok-inj e₂) (if_table (is_some import) p _ refl, tt)
  statement-Registers p import (Statement.import file) r e =
      subst (Registers p) (ok-inj e) (if_table (is_some import) p _ refl, tt)
  statement-Registers p import (Statement.option o) r e =
      subst (Registers p) (ok-inj e) (if_table (is_some import) p _ refl, tt)
  statement-Registers p import (Statement.service services) r e =
      subst (Registers p) (ok-inj e) (if_table (is_some import) p _ refl, tt)

  register-IsRanked :
      (p q r : ApiParser Hasher) (entry : Option (String × TypeEntry Hasher))
      → IsRanked p.global_types_by_name
      → Registers p (q, entry)
      → register checks c q entry ≡ ok r
      → IsRanked r.global_types_by_name
  register-IsRanked p q r none ranked (same, resolved) e =
      subst IsRanked (sym same ∙ ap (λ s. s.global_types_by_name) (ok-inj e)) ranked
  register-IsRanked p q r (some (name, entry)) ranked (same, resolved) e =
      elim (Bool-cases (is_some (lookup name q.global_types_by_name))) [
        | inl b ↦ absurd (cc (rw b at e))
        | inr b ↦
            subst IsRanked
              (ap (λ t. t ++ (name, entry) ∷ []) (sym same)
                ∙ ap (λ s. s.global_types_by_name) (ok-inj (rw b at e)))
              (unfold IsRanked in
                IsRanked-snoc [] p.global_types_by_name name entry ranked resolved)
      ]

  process_all-IsRanked :
      (p q : ApiParser Hasher) (h h' : Hasher) (import : Option String) (ss : List Statement)
      → IsRanked p.global_types_by_name
      → process_all checks c p h import ss ≡ ok (q, h')
      → IsRanked q.global_types_by_name
  unfolding process_all
  process_all-IsRanked p q h h' import [] ranked e =
      subst IsRanked (ap (λ r. r.0.global_types_by_name) (ok-inj e)) ranked
  process_all-IsRanked p q h h' import (s ∷ ss) ranked e =
      let (text, e₁, shown) = unbind _ (statement_crc_data checks s) e in
      let ((p₁, entry), e₂, done) = unbind _ (process_statement checks c p import s) e₁ in
      let (p₂, e₃, registered) = unbind _ (register checks c p₁ entry) e₂ in
      process_all-IsRanked p₂ q _ h' import ss
        (register-IsRanked p p₁ p₂ entry ranked (statement-Registers p import s _ done) registered)
        e₃

  pub process_statements-IsRanked :
      (p q : ApiParser Hasher) (ss : List Statement) (import : Option String) (crc : ℕ)
      → IsRanked p.global_types_by_name
      → process_statements checks c p ss import ≡ ok (q, crc)
      → IsRanked q.global_types_by_name
  unfolding process_statements
  process_statements-IsRanked p q ss import crc ranked e =
      let ((p₁, h), e₁, done) = unbind _ (process_all checks c p c.new import ss) e in
      subst IsRanked (ap (λ r. r.0.global_types_by_name) (ok-inj e₁))
        (process_all-IsRanked p p₁ c.new h import ss ranked done)
