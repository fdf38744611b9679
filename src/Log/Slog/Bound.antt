-- ===== src/Log/Slog/Bound.antt =====
-- The keys and values that a derived handler logs.
use go_infrastructure.Prelude.{
  ◌≡◌, refl, sym, ap, ◌∙◌, List, [], ◌∷◌, ◌++◌, append-nil, append_assoc, GoString, codes, is_empty,
  join, if◌then◌else◌, Bool-cases, inl, inr,
}
use go_infrastructure.Log.Level.{Value, text}
use go_infrastructure.Log.Slog.{
  Attr, Record, SlogHandler, slog_handler, prefix, append_attrs, with_attrs, with_group, handle,
  slog_to_kratos,
}

-- A way to derive a handler.
pub data Derive (V : Type 0) : Type 0 where
  attrs_of : List (Attr V) → Derive V
  group_of : GoString → Derive V

-- A key under the open groups, the outermost first.
abbrev pub qualified : List GoString → GoString → GoString
qualified [] key = key
qualified (g ∷ gs) key = g ++ (codes "." ++ qualified gs key)

join-qualified :
    (gs : List GoString) (key : GoString)
    → (if is_empty gs then key else join gs (codes ".") ++ (codes "." ++ key)) ≡ qualified gs key
unfolding join
join-qualified [] key = refl
join-qualified (g ∷ []) key = refl
join-qualified (g ∷ f ∷ gs) key =
    append_assoc (g ++ codes ".") (join (f ∷ gs) (codes ".")) (codes "." ++ key)
    ∙ append_assoc g (codes ".") _
    ∙ ap (λ t. g ++ (codes "." ++ t)) (join-qualified (f ∷ gs) key)

module _ {V : Type 0} where
  -- The handler that a list of derivations leads to, the first one first.
  unfoldable pub derived : List (Derive V) → SlogHandler V → SlogHandler V
  derived [] h = h
  derived (attrs_of as' ∷ ops) h = derived ops (with_attrs h as')
  derived (group_of g ∷ ops) h = derived ops (with_group h g)

  pub fields_under : List GoString → List (Attr V) → List (GoString × Value V)
  fields_under gs [] = []
  fields_under gs (a ∷ as') = (qualified gs a.key, a.val) ∷ fields_under gs as'

  -- The fields of a record: those of each `WithAttrs` under the groups that are open by then, and
  -- those of the record under all of them. An empty name opens no group.
  unfoldable pub scoped :
      List GoString → List (Derive V) → List (Attr V) → List (GoString × Value V)
  unfolding fields_under
  scoped gs [] as' = fields_under gs as'
  scoped gs (attrs_of bs ∷ ops) as' = fields_under gs bs ++ scoped gs ops as'
  scoped gs (group_of g ∷ ops) as' = scoped (if is_empty g then gs else gs ++ g ∷ []) ops as'

  abbrev pub flat : List (GoString × Value V) → List (Value V)
  flat [] = []
  flat ((k, v) ∷ fs) = text k ∷ v ∷ flat fs

  flat-append : (xs ys : List (GoString × Value V)) → flat (xs ++ ys) ≡ flat xs ++ flat ys
  flat-append [] ys = refl
  flat-append ((k, v) ∷ xs) ys = ap (λ t. text k ∷ v ∷ t) (flat-append xs ys)

  append_attrs-flat :
      (h : SlogHandler V) (as' : List (Attr V)) (kv : List (Value V))
      → append_attrs h as' kv ≡ kv ++ flat (fields_under h.groups as')
  unfolding append_attrs fields_under prefix
  append_attrs-flat h [] kv = sym (append-nil kv)
  append_attrs-flat h (a ∷ as') kv =
      append_attrs-flat h as' _
      ∙ append_assoc kv _ _
      ∙ ap (λ t. kv ++ (text t ∷ a.val ∷ flat (fields_under h.groups as')))
          (join-qualified h.groups a.key)

  with_group-attrs : (h : SlogHandler V) (g : GoString) → (with_group h g).attrs ≡ h.attrs
  unfolding with_group
  with_group-attrs h g = elim (Bool-cases (is_empty g)) [ inl e ↦ rw e | inr f ↦ rw f ]

  with_group-groups :
      (h : SlogHandler V) (g : GoString)
      → (with_group h g).groups ≡ (if is_empty g then h.groups else h.groups ++ g ∷ [])
  unfolding with_group
  with_group-groups h g = elim (Bool-cases (is_empty g)) [ inl e ↦ rw e | inr f ↦ rw f ]

  -- The keys and values of a record at a derived handler, after the message.
  derived-scoped :
      (ops : List (Derive V)) (h : SlogHandler V) (as' : List (Attr V)) (kv : List (Value V))
      → append_attrs (derived ops h) as' (kv ++ (derived ops h).attrs)
        ≡ kv ++ (h.attrs ++ flat (scoped h.groups ops as'))
  unfolding derived scoped with_attrs
  derived-scoped [] h as' kv = append_attrs-flat h as' (kv ++ h.attrs) ∙ append_assoc kv _ _
  derived-scoped (attrs_of bs ∷ ops) h as' kv =
      derived-scoped ops (with_attrs h bs) as' kv
      ∙ ap (λ t. kv ++ t)
          (ap (λ t. t ++ flat (scoped h.groups ops as')) (append_attrs-flat h bs h.attrs)
            ∙ append_assoc h.attrs _ _
            ∙ ap (λ t. h.attrs ++ t) (sym (flat-append (fields_under h.groups bs) _)))
  derived-scoped (group_of g ∷ ops) h as' kv =
      derived-scoped ops (with_group h g) as' kv ∙ rw (with_group-attrs h g, with_group-groups h g)

  -- A handler that is derived from a new one by any attributes and groups logs a record in one call:
  -- at the level of the record's, with the message under "msg", then the fields of the derivation and
  -- of the record, each key under the groups that were open where its attribute was given.
  pub handle-scoped :
      (ops : List (Derive V)) (r : Record V)
      → handle (derived ops slog_handler) r
        ≡ (slog_to_kratos r.level, flat ((codes "msg", text r.message) ∷ scoped [] ops r.attrs))
  unfolding handle slog_handler
  handle-scoped ops r =
      ap (λ t. (slog_to_kratos r.level, t))
        (derived-scoped ops slog_handler r.attrs (text (codes "msg") ∷ text r.message ∷ []))
