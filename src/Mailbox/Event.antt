-- ===== src/Mailbox/Event.antt =====
-- src/daemon/mailbox.ts: the events, the checks of their fields and of their identifiers.
use herdr_tools.Base.{
  ℕ, zero, suc, ◌*◌, Bool, true, false, not, ◌&&◌, String, List, [], ◌∷◌, ◌++◌, Option, none, some,
  all, length, eqb, leb, ltb, codes, utf16_length, byte_length, is_sha256_hex, is_digit, is_hex,
  get_or,
}
use herdr_tools.Base.Dict.{Dict}

-- `{count, firstAt, lastAt}`.
pub record Account : Type 0 where
  pub count : ℕ
  pub first_at : String
  pub last_at : String

pub record ChildIdentity : Type 0 where
  pub agent_name : String
  pub agent_kind : String
  pub pane_id : String
  pub terminal_id : Option String

pub record Decision : Type 0 where
  pub verdict : String
  pub labels : List String
  pub evidence_digest : String
  pub evidence_excerpt : Option String
  pub reviewer_model : String

pub record Handoff : Type 0 where
  pub state : String
  pub artifact_sha256 : Option String

pub record ProviderLimit : Type 0 where
  pub operating_point_id : String
  pub retry_not_before : Option String

-- `MailboxRunEventInput`: what a caller gives; `id` is there for a replay.
pub record RunInput : Type 0 where
  pub kind : String
  pub run_id : String
  pub job_id : String
  pub child_identity : Option ChildIdentity
  pub decision : Option Decision
  pub handoff : Option Handoff
  pub limit : Option ProviderLimit
  pub actions : Option (List String)
  pub id : Option String

-- `MailboxRunEvent`.
pub record RunEvent : Type 0 where
  pub id : String
  pub at : String
  pub kind : String
  pub run_id : String
  pub job_id : String
  pub child_identity : Option ChildIdentity
  pub decision : Option Decision
  pub handoff : Option Handoff
  pub limit : Option ProviderLimit
  pub actions : List String

pub record GapInput : Type 0 where
  pub from : String
  pub to : String
  pub lost : Dict Account
  pub id : Option String
  pub at : Option String

-- `MailboxGapEvent`.
pub record GapEvent : Type 0 where
  pub id : String
  pub at : String
  pub from : String
  pub to : String
  pub lost : Dict Account

pub data MailboxError : Type 0 where
  unavailable event_invalid event_not_found : MailboxError

-- What JavaScript's JSON, the redaction of bodies and `Date.parse` give.
pub record Codec : Type 0 where
  pub render_run : RunEvent → String
  pub render_gap : GapEvent → String
  pub parsed_id : String → Option String
  pub date_parses : String → Bool

abbrev pub max_event_bytes : ℕ
max_event_bytes = 32 * 1024

abbrev pub max_excerpt_bytes : ℕ
max_excerpt_bytes = 8 * 1024

unfoldable pub bounded_text : String → ℕ → Bool
unfolding utf16_length
bounded_text s max =
    ltb 0 (utf16_length s) && (leb (utf16_length s) max && all (λ c. not (eqb c 0)) (codes s))

abbrev optionally {ℓ} : {A : Type ℓ} → (A → Bool) → Option A → Bool
optionally p none = true
optionally p (some a) = p a

unfoldable pub valid_decision : Decision → Bool
unfolding bounded_text byte_length
valid_decision d =
    bounded_text d.verdict 64
    && (leb (length d.labels) 16
        && (all (λ l. bounded_text l 64) d.labels
            && (leb (utf16_length d.evidence_digest) 128
                && (optionally (λ e. leb (byte_length e) max_excerpt_bytes) d.evidence_excerpt
                    && bounded_text d.reviewer_model 64))))

unfoldable pub valid_handoff : Handoff → Bool
unfolding bounded_text
valid_handoff h = bounded_text h.state 64 && optionally (λ a. bounded_text a 128) h.artifact_sha256

unfoldable pub valid_limit : Codec → ProviderLimit → Bool
unfolding bounded_text
valid_limit c l =
    bounded_text l.operating_point_id 128
    && optionally (λ r. bounded_text r 64 && c.date_parses r) l.retry_not_before

-- `assertRunEventInput`.
unfoldable pub valid_run_input : Codec → RunInput → Bool
unfolding bounded_text valid_decision valid_handoff valid_limit
valid_run_input c input =
    bounded_text input.kind 64
    && (bounded_text input.run_id 200
        && (bounded_text input.job_id 200
            && (all (λ a. bounded_text a 256) (get_or input.actions [])
                && (optionally valid_decision input.decision
                    && (optionally valid_handoff input.handoff
                        && optionally (valid_limit c) input.limit)))))

-- `assertGapEventInput`.
unfoldable pub valid_gap_input : GapInput → Bool
unfolding bounded_text
valid_gap_input gap = bounded_text gap.from 64 && bounded_text gap.to 64

-- One class of code points for each place of the text.
abbrev matches : List (ℕ → Bool) → List ℕ → Bool
matches [] [] = true
matches [] (c ∷ cs) = false
matches (p ∷ ps) [] = false
matches (p ∷ ps) (c ∷ cs) = p c && matches ps cs

abbrev times : ℕ → (ℕ → Bool) → List (ℕ → Bool)
times zero p = []
times (suc n) p = p ∷ times n p

abbrev lit : ℕ → List (ℕ → Bool)
lit d = (λ c. eqb c d) ∷ []

-- `YYYY-MM-DDTHHMMSS.mmmZ-<uuid>`.
abbrev event_id_pattern : List (ℕ → Bool)
event_id_pattern =
    times 4 is_digit
    ++ (lit 45
        ++ (times 2 is_digit
            ++ (lit 45
                ++ (times 2 is_digit
                    ++ (lit 84
                        ++ (times 6 is_digit
                            ++ (lit 46
                                ++ (times 3 is_digit
                                    ++ (lit 90
                                        ++ (lit 45
                                            ++ (times 8 is_hex
                                                ++ (lit 45
                                                    ++ (times 4 is_hex
                                                        ++ (lit 45
                                                            ++ (times 4 is_hex
                                                            ++ (lit 45
                                                            ++ (times 4 is_hex
                                                            ++ (lit 45
                                                            ++ times 12 is_hex))))))))))))))))))

unfoldable pub is_event_id : String → Bool
is_event_id s = matches event_id_pattern (codes s)

unfoldable pub is_manager_key : String → Bool
unfolding is_sha256_hex
is_manager_key s = is_sha256_hex s
