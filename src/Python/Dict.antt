-- ===== src/Python/Dict.antt =====
-- Dicts with text keys, as the JSON column `trigger_config` holds them.
use schedualerl_lm.Base.{String, Option, none, some, List, [], ◌∷◌, ◌==◌, if◌then◌else◌, get_or}
use schedualerl_lm.Base.Int.{ℤ}
use schedualerl_lm.Python.Datetime.{Datetime}
use schedualerl_lm.Python.Result.{Result, ok, err, key_error}

-- The values that the program stores: a text, an integer, or a datetime object that was not yet
-- turned into a text.
pub data Value : Type 0 where
  text : String → Value
  number : ℤ → Value
  stamp : Datetime → Value

abbrev pub Dict : Type 0
Dict = List (String × Value)

-- `d.get(key)`
abbrev pub get : Dict → String → Option Value
get [] k = none
get ((j, v) ∷ d) k = if j == k then some v else get d k

-- `d[key]`
abbrev pub get_item : Dict → String → Result Value
get_item d k = elim (get d k) [ none ↦ err (key_error k) | some v ↦ ok v ]

-- `d.get(key, default)`
abbrev pub get_default : Dict → String → Value → Value
get_default d k v = get_or (get d k) v

-- `d[key] = value`
abbrev pub insert : Dict → String → Value → Dict
insert [] k v = (k, v) ∷ []
insert ((j, w) ∷ d) k v = if j == k then (k, v) ∷ d else (j, w) ∷ insert d k v

-- `d.update(other)`
abbrev pub update : Dict → Dict → Dict
update d [] = d
update d ((k, v) ∷ rest) = update (insert d k v) rest
