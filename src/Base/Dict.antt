-- ===== src/Base/Dict.antt =====
-- Go's maps from texts, as association lists in the order in which the keys came.
use Prim.Native.String.{String}
use mathlib.Core.Path.{◌≡◌, refl}
use mathlib.Core.List.{List, [], ◌∷◌}
use mathlib.Core.Option.{Option, none, some}
use native.Mathlib.Omega.{arith}
use text.Mathlib.TextEquality.{eq_iff}
use notification_system.Base.Tests.{if◌then◌else◌}
use notification_system.Base.Texts.{str_eq}

abbrev pub Dict {ℓ} : Type ℓ → Type ℓ
Dict V = List (String × V)

-- `entries[key]`
unfoldable pub get {ℓ} : {V : Type ℓ} → String → Dict V → Option V
get key [] = none
get key ((name, value) ∷ entries) = if str_eq name key then some value else get key entries

-- `entries[key] = new`
unfoldable pub put {ℓ} : {V : Type ℓ} → String → V → Dict V → Dict V
put key new [] = (key, new) ∷ []
put key new ((name, value) ∷ entries) =
    if str_eq name key then (key, new) ∷ entries else (name, value) ∷ put key new entries

-- A key that is set has its value, and the others keep theirs.
pub get-put {ℓ} :
    {V : Type ℓ} (set asked : String) (new : V) (entries : Dict V)
    → get asked (put set new entries) ≡ (if str_eq set asked then some new else get asked entries)
unfolding get put
get-put set asked new [] = refl
get-put set asked new ((name, value) ∷ entries) =
    ground
      (arith, eq_iff name asked, eq_iff name set, eq_iff set asked, get-put set asked new entries)
