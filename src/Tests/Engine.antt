-- ===== src/Tests/Engine.antt =====
-- Connecting to a database that answers at the second attempt.
use schedualerl_lm.Base.{◌≡◌, refl, ℕ, eqb, true, if◌then◌else◌}
use schedualerl_lm.Config.{default_database}
use schedualerl_lm.Db.Engine.{Driver, async_creator, create_db}
use schedualerl_lm.Db.Engine.Connecting.{IsDecided, async_creator-IsDecided}
use schedualerl_lm.Python.Result.{ok, err, other}

abbrev slow_driver : Driver
slow_driver = record {
  Connection = ℕ;
  connect = λ n. if eqb n 1 then ok n else err (other "OSError");
  is_connection_error = λ e. true;
  select_one = λ connection. ok tt;
  show_number = λ n. "5432";
}

connected : async_creator slow_driver (default_database "app" "secret" "schedules") ≡ ok 1
unfolding async_creator
connected = refl

pool_ready :
    create_db slow_driver (default_database "app" "secret" "schedules")
    ≡ ok (record { pool_size = 1; max_overflow = 9 })
unfolding create_db
pool_ready = refl

async_creator-IsDecided_example :
    IsDecided slow_driver
      (default_database "app" "secret" "schedules")
      2
      0
      (async_creator slow_driver (default_database "app" "secret" "schedules"))
async_creator-IsDecided_example =
    async_creator-IsDecided slow_driver (default_database "app" "secret" "schedules")
