-- ===== src/Json.antt =====
-- JSON values, as `json.loads` makes them. An object keeps its members in the order of insertion.
use ollama_queue_proxy.Prelude.{ℕ, String, Bool, Option, none, some, str_eq, if◌then◌else◌}

mutual
  pub data Json : Type 0 where
    null : Json
    boolean : Bool → Json
    number : ℕ → Json
    string : String → Json
    array : Items → Json
    object : Members → Json

  pub data Items : Type 0 where
    nil : Items
    cons : Json → Items → Items

  pub data Members : Type 0 where
    no_member : Members
    member : String → Json → Members → Members

-- `d.get(name)`
unfoldable pub get_member : String → Members → Option Json
get_member name no_member = none
get_member name (member k v rest) =
    let later = get_member name rest in if str_eq k name then some v else later
