-- ===== src/LogSystem/Message.antt =====
-- logSystem/logsCode/Level.hpp and Message.hpp: levels, and the line that is made of one message.
use asyn_log_system.Prelude.{ℕ, ◌+◌, ◌/◌, ◌%◌, ◌≡◌, refl, [], ◌∷◌, ◌++◌}
use asyn_log_system.Prelude.Text.{Text, codes}
use asyn_log_system.Prelude.Decimal.{decimal}
use asyn_log_system.LogSystem.Flush.Names.{Tm}

-- `LogLevel::value`.
pub data Level : Type 0 where
  debug info warn error fatal : Level

-- `LogLevel::ToString(level)`.
unfoldable pub to_string : Level → Text
to_string debug = codes "DEBUG"
to_string info = codes "INFOR"
to_string warn = codes "WARN"
to_string error = codes "ERROR"
to_string fatal = codes "FATAL"

-- `LogMessage`; its time as `localtime_r` gives it, the thread's id as it is printed.
pub record LogMessage : Type 0 where
  pub line : ℕ
  pub ctime : Tm
  pub filename : Text
  pub name : Text
  pub payload : Text
  pub tid : Text
  pub level : Level

two_digits : ℕ → Text
two_digits n = (48 + n / 10) ∷ (48 + n % 10) ∷ []

-- `strftime` with `%H:%M:%S`.
abbrev clock : Tm → Text
clock t = two_digits t.hour ++ b':' ∷ two_digits t.min ++ b':' ∷ two_digits t.sec

-- `format()`.
unfoldable pub format : LogMessage → Text
unfolding two_digits
format m =
    codes "["
    ++ clock m.ctime
    ++ codes "]["
    ++ m.tid
    ++ codes "["
    ++ to_string m.level
    ++ codes "]["
    ++ m.name
    ++ codes "]["
    ++ m.filename
    ++ codes ":"
    ++ decimal m.line
    ++ (0x5d ∷ 0x9 ∷ m.payload)
    ++ 0xa ∷ []

sample :
    format (record {
      line = 12;
      ctime = record { year = 125; mon = 0; mday = 1; hour = 9; min = 5; sec = 0 };
      filename = codes "a.cpp";
      name = codes "default";
      payload = codes "hello";
      tid = codes "1407";
      level = error;
    })
    ≡ codes "[09:05:00][1407[ERROR][default][a.cpp:12]" ++ (0x9 ∷ codes "hello") ++ 0xa ∷ []
unfolding format to_string decimal two_digits
sample = refl
