-- ===== src/Provider.antt =====
-- mtpaccess/ConnectionProvider.cpp and ConnectionProvider.h: `MtpConnectionProvider`, the list of
-- devices and the connections that are open, each with its count of users
-- (mtpaccess/AbstractConnection.h). `Manager` is what the portable device API of Windows answers. A
-- connection is named by the identifier of its device, its key. The client information, which holds
-- the read-only flag, is part of what `opens` stands for.
pub mod Counts
use mtpmount.Base.{
  ℕ, zero, suc, ◌+◌, ◌-◌, Bool, true, false, not, ◌&&◌, ◌>>=◌, Option, none, some, List, [], ◌∷◌,
  ◌==◌, ltb, get_elem?, if◌then◌else◌, length,
}
use mtpmount.Base.Text.{Text, eq_text}
use mtpmount.Base.Assoc.{find_key, erase_key, insert_key, alter_key}

-- `refreshes`: RefreshDeviceList succeeds; `count` and `devices`: the two calls of GetDevices;
-- `friendly_name`: GetDeviceFriendlyName; `opens`: a device is made and can be opened.
pub record Manager : Type 0 where
  pub refreshes : Bool
  pub count : Option ℕ
  pub devices : Option (List Text)
  pub friendly_name : Text → Option Text
  pub opens : Text → Bool

pub record Provider : Type 0 where
  pub available_device_guids : List Text
  pub available_connections : List (Text × ℕ)

-- The second half of `_refreshDeviceList`, after the count is known.
unfoldable pub read_devices : Option (List Text) → Provider → Provider × Bool
read_devices none p = (p, false)
read_devices (some guids) p = (record p { available_device_guids = guids }, true)

unfoldable pub count_devices : Option ℕ → Option (List Text) → Provider → Provider × Bool
count_devices none guids p = (p, false)
count_devices (some zero) guids p = (p, true)
count_devices (some (suc n)) guids p = read_devices guids p

unfoldable pub refresh_device_list : Manager → Bool → Provider → Provider × Bool
refresh_device_list m full_refresh p =
    if full_refresh && not m.refreshes then (p, false) else count_devices m.count m.devices p

-- The constructor: it throws if the list cannot be read.
unfoldable pub new_provider : Manager → Option Provider
new_provider m =
    let made =
      refresh_device_list m false
        record { available_device_guids = []; available_connections = [] } in
    if made.1 then some made.0 else none

unfoldable pub refresh : Manager → Provider → Provider × Bool
refresh m p = refresh_device_list m true p

unfoldable pub get_device_count : Provider → ℕ
get_device_count p = length p.available_device_guids

-- `none` if the method returns false: the name that it was given is left as it was.
unfoldable pub get_friendly_name_of_device : Manager → ℕ → Provider → Option Text
get_friendly_name_of_device m i p =
    get_elem? p.available_device_guids i >>= λ guid. m.friendly_name guid

-- A connection that is open is shared, a new one has one user (`_refcount = 1`).
unfoldable pub open_guid : Manager → Text → Provider → Provider × Option Text
open_guid m guid p = elim (find_key eq_text guid p.available_connections) [
  | some n ↦ (
    record p {
      available_connections = alter_key eq_text guid (λ n. n + 1) p.available_connections;
    },
    some guid,
  )
  | none ↦
      if m.opens guid
      then (
        record p { available_connections = insert_key eq_text guid 1 p.available_connections },
        some guid,
      )
      else (p, none)
]

unfoldable pub open_connection_to_device : Manager → ℕ → Provider → Provider × Option Text
open_connection_to_device m i p = elim (get_elem? p.available_device_guids i) [
  | none ↦ (p, none)
  | some guid ↦ open_guid m guid p
]

-- `closeConnection` of a connection with `n` users that is in the map; `_refcount` is an `int`, and
-- no client closes a connection that it did not open.
unfoldable pub close_connection : Text → Provider → Provider
close_connection guid p = elim (find_key eq_text guid p.available_connections) [
  | none ↦ p
  | some n ↦
      let fewer = alter_key eq_text guid (λ n. n - 1) p.available_connections in
      if ltb (n - 1) 1
      then record p { available_connections = erase_key eq_text guid fewer }
      else record p { available_connections = fewer }
]
