-- ===== src/Platform/Permissions.antt =====
-- The permission lists of server/internal/platform/service.go: `permissions`, `contains`,
-- `controls`, `validPermissions` and `subset`. A `Permission` is a Go string.
pub mod Laws
pub mod Valid
use multi_desk.Base.{
  ℕ, String, List, [], ◌∷◌, ◌++◌, Bool, true, false, not, ◌&&◌, ◌||◌, ◌==◌, num_eq, ltb, length,
  if◌then◌else◌,
}

abbrev pub view : String
view = "view"

abbrev pub mouse : String
mouse = "mouse"

abbrev pub keyboard : String
keyboard = "keyboard"

abbrev pub permissions : List String
permissions =
    "view" ∷ "mouse" ∷ "keyboard" ∷ "files" ∷ "clipboard" ∷ "audio" ∷ "microphone" ∷ "system_info"
    ∷ "restart_app" ∷ "restart_computer" ∷ "record" ∷ "ai_analysis" ∷ "workflows" ∷ []

unfoldable pub contains : List String → String → Bool
contains [] v = false
contains (x ∷ xs) v = if x == v then true else contains xs v

unfoldable pub controls : List String → Bool
controls p = contains p mouse || contains p keyboard

-- the loop of `validPermissions`; `seen` holds the keys that were set
unfoldable pub all_new : List String → List String → Bool
all_new seen [] = true
all_new seen (x ∷ xs) =
    let rest = all_new (x ∷ seen) xs in
    if not (contains permissions x) || contains seen x then false else rest

unfoldable pub valid_permissions : List String → Bool
valid_permissions p =
    if num_eq (length p) 0 || ltb (length permissions) (length p) || not (contains p view)
    then false
    else all_new [] p

unfoldable pub subset : List String → List String → Bool
subset [] b = true
subset (x ∷ a) b = if not (contains b x) then false else subset a b

-- the loop of `handover` over the permissions of another session
unfoldable pub drop_control : List String → List String
drop_control [] = []
drop_control (p ∷ ps) =
    let rest = drop_control ps in if not (p == mouse) && not (p == keyboard) then p ∷ rest else rest

-- one round of the loop of `handover` that hands a requested control to the session
unfoldable pub add_requested : List String → List String → String → List String
add_requested requested granted p =
    if contains requested p && not (contains granted p) then granted ++ p ∷ [] else granted

-- both rounds
unfoldable pub take_control : List String → List String → List String
take_control requested granted =
    add_requested requested (add_requested requested granted mouse) keyboard
