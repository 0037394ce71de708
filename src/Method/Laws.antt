-- ===== src/Method/Laws.antt =====
-- Which slots the methods have.
use route_lang.Common.{ℕ, ◌<◌, ◌≡◌, ◌≢◌, ◌⊎◌, refl, arith}
use route_lang.Method.{
  HttpMethod, method_slots, slot_invalid, route_method_key, slot_from_key, route_method_slot,
}

-- A slot is an index of the ten slots of a node, or the invalid one.
pub route_method_slot_cases :
    (c : ℕ) → (route_method_slot c < method_slots) ⊎ (route_method_slot c ≡ slot_invalid)
unfolding route_method_slot
route_method_slot_cases c = ground arith

key_cases :
    (m : HttpMethod) → m ≢ HttpMethod.unknown → (0 < route_method_key m) × (route_method_key m < 10)
unfolding route_method_key
key_cases HttpMethod.get h = omega arith
key_cases HttpMethod.unknown h = absurd (h refl)
key_cases _ h = omega arith

-- The key of a known method is its own slot, on the path of `insert`, which also takes legacy
-- characters, and on the path of `match_key`, which does not; it is never the slot of "any".
pub slot-route_method_key :
    (m : HttpMethod)
    → m ≢ HttpMethod.unknown
    → (route_method_slot (route_method_key m) ≡ route_method_key m)
      × (slot_from_key (route_method_key m) ≡ route_method_key m)
      × (route_method_key m ≢ 0)
unfolding route_method_slot
slot-route_method_key m h = ground (arith, key_cases m h)

-- Known methods share no slot.
pub route_method_key-injective :
    (m n : HttpMethod) → route_method_key m ≡ route_method_key n → m ≡ n
unfolding route_method_key
route_method_key-injective m n h = ground arith
