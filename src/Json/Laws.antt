-- ===== src/Json/Laws.antt =====
-- What is read from an object after a write or a merge.
use clairveiljs.Prelude.{
  ◌||◌, String, true, false, none, some, if◌then◌else◌, str_eq, str_eq_iff, ◌≡◌, refl, arith,
}
use clairveiljs.Json.{Value, Fields, end, field, get, has, put, merge, delete}

pub get-put :
    (k j : String) (v : Value) (fs : Fields)
    → get (put k v fs) j ≡ (if str_eq k j then some v else get fs j)
unfolding get put
get-put k j v end = refl
get-put k j v (field i w fs) =
    ground (arith, str_eq_iff k j, str_eq_iff i k, str_eq_iff i j, get-put k j v fs)

pub get-merge :
    (base over : Fields) (j : String)
    → get (merge base over) j ≡ (if has over j then get over j else get base j)
unfolding get has merge
get-merge base end j = refl
get-merge base (field k v over) j =
    ground (arith, get-put k j v (merge base over), get-merge base over j)

-- A key that the second object lacks keeps the value of the first.
pub get-merge_lacks :
    (base over : Fields) (j : String) → has over j ≡ false → get (merge base over) j ≡ get base j
get-merge_lacks base over j h = ground (arith, get-merge base over j)

pub has-put :
    (k j : String) (v : Value) (fs : Fields)
    → has (put k v fs) j ≡ (if str_eq k j then true else has fs j)
unfolding has put
has-put k j v end = refl
has-put k j v (field i w fs) =
    ground (arith, str_eq_iff k j, str_eq_iff i k, str_eq_iff i j, has-put k j v fs)

pub has-delete_ne :
    (k j : String) (fs : Fields) → str_eq k j ≡ false → has (delete k fs) j ≡ has fs j
unfolding has delete
has-delete_ne k j end h = refl
has-delete_ne k j (field i w fs) h =
    ground (arith, str_eq_iff k j, str_eq_iff i k, str_eq_iff i j, has-delete_ne k j fs)

pub get-delete_ne :
    (k j : String) (fs : Fields) → str_eq k j ≡ false → get (delete k fs) j ≡ get fs j
unfolding get delete
get-delete_ne k j end h = refl
get-delete_ne k j (field i w fs) h =
    ground (arith, str_eq_iff k j, str_eq_iff i k, str_eq_iff i j, get-delete_ne k j fs)

pub get-has : (fs : Fields) (j : String) → has fs j ≡ false → get fs j ≡ none
unfolding get has
get-has end j h = refl
get-has (field i w fs) j h = ground (arith, get-has fs j)

pub has-merge :
    (base over : Fields) (j : String) → has (merge base over) j ≡ (has over j || has base j)
unfolding has merge
has-merge base end j = refl
has-merge base (field k v over) j =
    ground (arith, has-put k j v (merge base over), has-merge base over j)
