-- ===== src/Prelude/Texts.antt =====
-- Lists of texts as sets.
use mathlib.Core.Path.{◌≡◌, refl}
use mathlib.Core.Bool.{Bool, ◌||◌, ◌&&◌, not}
use mathlib.Core.List.{List, [], ◌∷◌, ◌++◌}
use Prim.Native.String.{String}
use native.Mathlib.Omega.{arith}
use text.Mathlib.TextEquality.{eq_iff}
use agent_comm_hub.Prelude.Tests.{str_eq, if◌then◌else◌}
use agent_comm_hub.Prelude.Lists.{any, filter}

-- `list.includes(id)`
abbrev pub includes : List String → String → Bool
includes ids id = any (λ i. str_eq i id) ids

dedup_after : List String → List String → List String
dedup_after seen [] = []
dedup_after seen (id ∷ ids) =
    if includes seen id then dedup_after seen ids else id ∷ dedup_after (id ∷ seen) ids

-- `[...new Set(ids)]`: the first occurrence of each.
unfoldable pub dedup : List String → List String
unfolding dedup_after
dedup ids = dedup_after [] ids

-- `set.add(id)`
unfoldable pub add : String → List String → List String
add id ids = if includes ids id then ids else ids ++ id ∷ []

-- `set.delete(id)`
unfoldable pub remove : String → List String → List String
remove id ids = filter (λ i. not (str_eq i id)) ids

pub includes-append :
    (ids ids' : List String) (j : String)
    → includes (ids ++ ids') j ≡ (includes ids j || includes ids' j)
includes-append [] ids' j = refl
includes-append (i ∷ ids) ids' j = ground (arith, includes-append ids ids' j)

pub includes-add :
    (id : String) (ids : List String) (j : String)
    → includes (add id ids) j ≡ (str_eq id j || includes ids j)
unfolding add
includes-add id ids j = ground (arith, includes-append ids (id ∷ []) j, eq_iff id j)

pub includes-remove :
    (id : String) (ids : List String) (j : String)
    → includes (remove id ids) j ≡ (not (str_eq id j) && includes ids j)
unfolding remove
includes-remove id [] j = ground arith
includes-remove id (i ∷ ids) j =
    ground (arith, includes-remove id ids j, eq_iff i id, eq_iff i j, eq_iff id j)
