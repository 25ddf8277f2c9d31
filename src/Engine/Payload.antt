-- ===== src/Engine/Payload.antt =====
-- common/engine.py: the client's fields, the body of its request, and what surrounds the calls.
use ocr_serving.Base.{
  ℕ, ◌-◌, ◌*◌, ◌/◌, Bool, true, false, ◌&&◌, Option, none, some, List, [], ◌∷◌, ◌++◌, if◌then◌else◌,
  ltb, ◌==◌, not,
}
use ocr_serving.Base.Text.{Text, codes, text_or}
use ocr_serving.Config.{Settings}
use ocr_serving.Engine.{StreamStats}

-- `OCR_PROMPT`
abbrev pub ocr_prompt : Text
ocr_prompt =
    codes
      "OCR this document page. Output all text in markdown, preserving reading order. Render tables as markdown tables."

pub record OcrClient : Type 0 where
  pub base_url : Text
  pub model : Text
  pub api_key : Text
  pub timeout : ℕ
  pub connect_timeout : ℕ
  pub max_tokens : ℕ
  pub max_retries : ℕ
  pub max_concurrency : ℕ
  pub prompt : Text

-- `client_from_settings`, without overrides.
abbrev pub client_from_settings : Settings → OcrClient
client_from_settings s = record {
  base_url = s.engine_base_url;
  model = s.model_id;
  api_key = s.engine_api_key;
  timeout = s.engine_timeout_s;
  connect_timeout = s.engine_connect_timeout_s;
  max_tokens = s.engine_max_tokens;
  max_retries = s.engine_max_retries;
  max_concurrency = s.engine_max_concurrency;
  prompt = ocr_prompt;
}

-- One part of a message's content: an image by its URL, or a text.
pub data Part : Type 0 where
  image_url : Text → Part
  text_part : Text → Part

-- The content of a message is a text or a list of parts.
pub data Content : Type 0 where
  plain : Text → Content
  parts : List Part → Content

pub record Message : Type 0 where
  pub role : Text
  pub content : Content

-- The body of a chat completion. A key that is missing is `none`, or false.
pub record Body : Type 0 where
  pub model : Text
  pub temperature : ℕ
  pub max_tokens : Option ℕ
  pub stream : Bool
  pub messages : List Message
  pub include_usage : Bool

module _ (b64encode : Text → Text) where
  abbrev pub png_to_data_uri : Text → Text
  png_to_data_uri png = codes "data:image/png;base64," ++ b64encode png

  -- `prompt or self.prompt`
  abbrev prompt_or : Option Text → Text → Text
  prompt_or none prompt = prompt
  prompt_or (some given) prompt = text_or given prompt

  -- `_payload`
  abbrev pub payload : OcrClient → Text → Bool → Option Text → Body
  payload client png stream prompt = record {
    model = client.model;
    temperature = 0;
    max_tokens = some client.max_tokens;
    stream = stream;
    messages =
        record {
          role = codes "user";
          content =
              parts
                (image_url (png_to_data_uri png) ∷ text_part (prompt_or prompt client.prompt) ∷ []);
        }
        ∷ [];
    include_usage = stream;
  }

-- `StreamStats.ok`
abbrev pub is_ok : StreamStats → Bool
is_ok stats = elim stats.error [ none ↦ true | some e ↦ false ]

-- `StreamStats.tokens_per_s`, in thousandths where the times are in milliseconds; the quotient is
-- rounded down.
unfoldable pub tokens_per_s : StreamStats → ℕ
tokens_per_s stats =
    if ltb stats.ttft_s stats.e2e_s && not (stats.completion_tokens == 0)
    then (stats.completion_tokens * 1000000) / (stats.e2e_s - stats.ttft_s)
    else 0

-- What `GET /models` does: an HTTP error, or a status.
pub data Probe : Type 0 where
  http_error : Probe
  answered : ℕ → Probe

-- `health`
abbrev pub health : Probe → Bool
health http_error = false
health (answered code) = code == 200
