-- ===== src/Routes/TriggerParse.antt =====
-- app/routes/trigger_parse.py
pub mod Preview
pub mod Answers
use schedualerl_lm.Python.Datetime.{Datetime}
use schedualerl_lm.Python.Result.{Result}
use schedualerl_lm.Routes.Tasks.{or_unprocessable}
use schedualerl_lm.Schemas.TriggerParse.{TriggerParseRequest, TriggerParseResponse}
use schedualerl_lm.Services.TextParsing.{Parser, parse_trigger_text}

-- `parse_trigger`
unfoldable pub parse_trigger : Parser → Datetime → TriggerParseRequest → Result TriggerParseResponse
unfolding parse_trigger_text
parse_trigger parser clock body =
    or_unprocessable (parse_trigger_text parser clock body.text body.timezone)
