-- ===== src/Schema/Declare/Examples.antt =====
-- Two fields declared, names refused, and the theorems at them.
use mmpack.Prelude.{ℕ, ◌≡◌, ◌⊎◌, refl, some, [], ◌∷◌, ◌++◌}
use mmpack.Error.{BuildError, duplicate_name, nul_in_name, bytes_width, empty_name, done, fail}
use mmpack.Dictionary.{same_bytes}
use mmpack.Schema.{uint, text, bytes}
use mmpack.Schema.Declare.{
  FieldDecl, SchemaBuilder, find_loop, find, has_nul, add, add_uint, add_text, add_bytes,
}
use mmpack.Schema.Declare.Laws.{
  IsDeclared, none_yet, one_more, Adds, add-Adds, Refuses, IsFree, add-Refuses,
}

program : Unit {0}
unfolding same_bytes find_loop find has_nul add add_bytes
program = tt

abbrev age : FieldDecl
age = record { name = 97 ∷ 103 ∷ []; kind = uint; fixed_width = 0 }

abbrev mac : FieldDecl
mac = record { name = 109 ∷ []; kind = bytes; fixed_width = 6 }

abbrev two : SchemaBuilder
two = age ∷ mac ∷ []

declared :
    (add_uint [] age.name ≡ done (age ∷ [], 0))
    × (add_bytes (age ∷ []) mac.name 6 ≡ done (two, 1))
    × (add_bytes (age ∷ []) mac.name 9 ≡ fail bytes_width)
    × (add_text two age.name ≡ fail duplicate_name)
    × (add_text two (97 ∷ 0 ∷ []) ≡ fail nul_in_name)
    × (add_text two [] ≡ fail empty_name)
    × (find two mac.name ≡ some 1)
unfolding program
declared = (refl, refl, refl, refl, refl, refl, refl)

age-IsDeclared : IsDeclared (age ∷ [])
unfolding program
age-IsDeclared = one_more age none_yet (refl, refl) tt

added : add (age ∷ []) mac.name mac.kind mac.fixed_width ≡ done (two, 1)
unfolding program
added = refl

add-Adds_example : Adds (age ∷ []) mac two 1
add-Adds_example = add-Adds (age ∷ []) mac two 1 age-IsDeclared added

add-Refuses_example :
    ((error : BuildError) × (add two age.name text 0 ≡ fail error) × Refuses two age.name error)
    ⊎ ((id : ℕ) × (add two age.name text 0
          ≡ done (two ++ (record { name = age.name; kind = text; fixed_width = 0 } ∷ []), id))
        × IsFree two age.name)
add-Refuses_example = add-Refuses two age.name text 0
