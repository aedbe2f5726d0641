-- ===== src/Tests/Runtime.antt =====
-- Tests of a turn, and instances of the theorem on conversations.
use real_voice_agent_free.Prelude.{refl, none, some, [], ◌∷◌, text_length}
use real_voice_agent_free.Env.{Env}
use real_voice_agent_free.Calls.Turns.{TurnsAreNumbered}
use real_voice_agent_free.Calls.Runs.{turn, complete}
use real_voice_agent_free.Runtime.{Services, failure, CallRespondRequest}
use real_voice_agent_free.Runtime.Runs.{converse_all, converse_all-TurnsAreNumbered, plain, respond}
use real_voice_agent_free.Tests.World.{env_with, refused, db, world_of}
use real_voice_agent_free.Tests.Calls.{call, said, escalation}
use real_voice_agent_free.Tests.Bookings.{moscow}

abbrev env : Env
env = env_with refused

-- OpenAI is down, and not asked.
abbrev pub services : Services
services = record {
  lower = λ s. s;
  strip = λ s. s;
  title = λ s. s;
  word_count = text_length;
  audio_file = λ s. none;
  audio_path = λ s. s;
  transcriptions = λ s. failure "down";
  responses = λ s. failure "down";
  speech = λ voice text path. failure "down";
}

abbrev pub question : CallRespondRequest
question = record { input_text = some "can I book"; audio_ref = none; voice_id = none }

converse_all-TurnsAreNumbered_example :
    TurnsAreNumbered
      (converse_all env moscow services
        (plain (turn "call_1" said "org_default" "t1" 5)
          ∷ respond "call_1" question "org_default" "t2" 6
          ∷ plain (complete "call_1" escalation "org_default" "t3" 7)
          ∷ [])
        (world_of (record db { calls = call ∷ [] }))).disk
converse_all-TurnsAreNumbered_example =
    converse_all-TurnsAreNumbered env moscow services
      (plain (turn "call_1" said "org_default" "t1" 5)
        ∷ respond "call_1" question "org_default" "t2" 6
        ∷ plain (complete "call_1" escalation "org_default" "t3" 7)
        ∷ [])
      (world_of (record db { calls = call ∷ [] })) (record { numbered = λ call_id. refl })
