-- ===== src/Field/Binary/Map.antt =====
-- A list of fields in bytes as a map by name: `Set` and `Get` of
-- internal/legacy/field/list_binary.go together.
use spatialdb_engine.Base.{
  ◌+◌, ◌^◌, ◌<◌, ◌≡◌, refl, ap, ◌∙◌, false, none, some, List, [], ◌∷◌, length,
}
use spatialdb_engine.Base.Text.{Str, str_eq}
use spatialdb_engine.Shared.{Shared, store, IsShared}
use spatialdb_engine.Field.{Numbers, Json, Field}
use spatialdb_engine.Field.Binary.{Fields, ptob, entry_bytes, set, get, split_dot}
use spatialdb_engine.Field.Binary.Encoding.{IsStored, Encodes, Encodes-keeps}
use spatialdb_engine.Field.Binary.Update.{insert_field, set-Encodes}
use spatialdb_engine.Field.Binary.Reads.{find_field, get-find_field}
use spatialdb_engine.Field.Binary.Names.{
  NamesSorted, AllStored, Written, insert_field-NamesSorted, find-insert_field,
}

module _ (N : Numbers) where
  -- The bytes are those of fields in the order of their names.
  abbrev pub IsList : Shared → Fields → Type 0
  IsList sh fs = (l : List (Field N)) × Encodes sh l (ptob fs) × NamesSorted l

module _ {N : Numbers} where
  Encodes-AllStored : (sh : Shared) (l : List (Field N)) (b : Str) → Encodes sh l b → AllStored l
  Encodes-AllStored sh [] b e = tt
  Encodes-AllStored sh (f ∷ l) b (num, tail, name, small, stored, at, rest) =
      (stored, Encodes-AllStored sh l tail rest)

  -- `Set` on a list over a right table, of a field that can be stored under a name without a dot,
  -- where the bytes stay below 2 ^ 64: it does not panic; the new list is a list again, over a right
  -- table in which every other list stays one; `Get` of the name then gives no field if the value is
  -- zero, and otherwise the new field or one with an equal value; and `Get` of another name without a
  -- dot gives what it gave before.
  pub get-set-Written :
      (J : Json) (sh : Shared) (f : Field N) (fs : Fields)
      → IsShared sh
      → IsStored f
      → IsList N sh fs
      → split_dot f.name ≡ none
      → (store sh f.name).1 < 2 ^ 64
      → length (ptob fs) + length (entry_bytes (store sh f.name).1 f) < 2 ^ 64
      → (sh' : Shared) × (fs' : Fields) × (set sh fs f ≡ some (sh', fs'))
        × IsShared sh'
        × IsList N sh' fs'
        × ((other : Fields) → IsList N sh other → IsList N sh' other)
        × ((g : Field N) × (get J sh' fs' f.name ≡ some g) × Written f g)
        × ((name : Str)
            → split_dot name ≡ none
            → str_eq f.name name ≡ false
            → get {N = N} J sh' fs' name ≡ get J sh fs name)
  get-set-Written J sh f fs right stored (l, e, sorted) plain room small =
      let (sh', fs', done, e', right', keeps) = set-Encodes sh f right stored room fs l e small in
      let (mine, others) =
        find-insert_field J f l stored sorted (Encodes-AllStored sh l (ptob fs) e) in
      let found : get J sh' fs' f.name ≡ some (find_field J none f.name (insert_field f l)) =
        get-find_field J sh' fs' (insert_field f l) f.name e'
        ∙ ap (λ p. some (find_field J p f.name (insert_field f l))) plain in
      (
        sh',
        fs',
        done,
        right',
        (insert_field f l, e', insert_field-NamesSorted f l sorted),
        λ other is. (is.0, Encodes-keeps sh sh' keeps is.0 (ptob other) is.1, is.2),
        (find_field J none f.name (insert_field f l), found, mine),
        λ name flat d.
            rw
              (
                get-find_field J sh' fs' (insert_field f l) name e',
                get-find_field J sh fs l name e,
                flat,
                others name d,
              )
              refl,
      )
