-- ===== src/Python/Platform.antt =====
-- The texts of UUIDs and datetimes. The program only writes them and reads them back, so the
-- notations are parameters, with the inverse laws that Python documents as predicates on a value.
use Prim.Native.Char.{code}
use schedualerl_lm.Base.{ℕ, String, ◌<>◌, ◌≡◌, Option, some, eqb, if◌then◌else◌}
use schedualerl_lm.Python.Datetime.{Datetime, Zone, Zones, with_offset}

-- A UUID is its 128-bit integer.
abbrev pub Uuid : Type 0
Uuid = ℕ

pub record Platform : Type 0 where
  pub zones : Zones
  -- the zone of the process, in which `astimezone` reads a naive datetime
  pub local_zone : Zone
  -- `str(u)`, and `UUID(s)`, which raises `ValueError`
  pub str_uuid : Uuid → String
  pub parse_uuid : String → Option Uuid
  -- `d.isoformat()`, and `datetime.fromisoformat(s)`, which raises `ValueError`
  pub isoformat : Datetime → String
  pub fromisoformat : String → Option Datetime

-- The text of a UUID reads back as the UUID.
abbrev pub UuidRereads : Platform → Uuid → Type 0
UuidRereads p u = p.parse_uuid (p.str_uuid u) ≡ some u

-- `isoformat` writes the offset as a number, so an aware datetime reads back with its wall clock
-- and its offset.
abbrev pub IsoRereads : Platform → Datetime → Type 0
IsoRereads p d = p.fromisoformat (p.isoformat d) ≡ some (with_offset p.zones d)

-- `s.replace("Z", "+00:00")`
unfoldable pub expand_z : String → String
expand_z String.[] = String.[]
expand_z (String.◌∷◌ c s) =
    if eqb (code c) b'Z' then "+00:00" <> expand_z s else String.◌∷◌ c (expand_z s)

-- A text of `isoformat` has no `Z`.
abbrev pub IsoHasNoZ : Platform → Datetime → Type 0
IsoHasNoZ p d = expand_z (p.isoformat d) ≡ p.isoformat d
