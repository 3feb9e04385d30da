-- ===== src/DeviceTree/Location/Laws.antt =====
-- Which locations are stored.
use lsvpd.Base.{
  true, false, List, [], ◌∷◌, ◌≡◌, ◌≢◌, refl, arith, none, some, Bytes, same, same_iff,
}
use lsvpd.DeviceTree.Location.{Bus, parse_major_minor, begins, get_base_loc, counts, check_location}

get_base_loc-begins :
    (ancestors : List Bytes)
    → same (get_base_loc ancestors) [] ≡ false
    → begins b'U' (get_base_loc ancestors) ≡ true
unfolding get_base_loc
get_base_loc-begins [] h = unfold same in cc
get_base_loc-begins (loc ∷ ancestors) h = ground (arith, get_base_loc-begins ancestors)

-- What is stored begins with a U, and only a component whose location does not is given one.
pub check_location-begins :
    (loc : Bytes) (ancestors : List Bytes) (bus : Bus) (addr new : Bytes)
    → (check_location loc ancestors bus addr).1 ≡ some new
    → (begins b'U' new ≡ true) × (begins b'U' loc ≡ false)
unfolding check_location
check_location-begins loc [] bus addr new h = ground arith
check_location-begins loc (p ∷ ps) bus addr new h = ground (arith, get_base_loc-begins (p ∷ ps))

-- A device with a major number that counts is answered `true`, and is given no location: the one
-- that the code puts together is dropped.
pub check_location_dropped :
    (loc : Bytes) (ancestors : List Bytes) (bus : Bus) (addr : Bytes)
    → begins b'U' loc ≡ false
    → begins b'-' loc ≡ false
    → get_base_loc ancestors ≢ []
    → counts (parse_major_minor bus addr).0 ≡ true
    → check_location loc ancestors bus addr ≡ (true, none)
unfolding check_location
check_location_dropped loc [] bus addr u d b c = absurd (b refl)
check_location_dropped loc (p ∷ ps) bus addr u d b c =
    ground (arith, same_iff (get_base_loc (p ∷ ps)) [])
