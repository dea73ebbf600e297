-- ===== src/Queue/Client.antt =====
-- internal/infra/queue/sqs.go: `Client`, the requests that it makes of the AWS SDK and what it makes
-- of the answers. The SDK and strconv.Atoi are parameters.
use apostas_api.Prelude.{
  ℕ, Bool, true, false, ◌&&◌, ◌||◌, Option, none, some, List, [], ◌∷◌, ◌++◌, String, if◌then◌else◌,
}
use apostas_api.Prelude.Int.{ℤ}
use apostas_api.Prelude.Eq.{◌==◌, ◌!=◌, string_eq}
use apostas_api.Config.{Settings}
use apostas_api.Queue.{Message, visibility_seconds}

-- The options of `LoadDefaultConfig`.
pub data LoadOption : Type 0 where
  with_region : String → LoadOption
  with_static_credentials : String → String → LoadOption
  with_base_endpoint : String → LoadOption

unfoldable pub load_options : Settings → List LoadOption
load_options cfg =
    with_region cfg.aws_region
    ∷ ((if cfg.aws_access_key != "" && cfg.aws_secret_key != ""
          then with_static_credentials cfg.aws_access_key cfg.aws_secret_key ∷ []
          else [])
        ++ (if cfg.aws_endpoint != "" then with_base_endpoint cfg.aws_endpoint ∷ [] else []))

pub record Client : Type 0 where
  pub input_url : String
  pub output_url : String
  pub dlq_url : String

-- `NewClient`, where the SDK loads its configuration
unfoldable pub new_client : (List LoadOption → Bool) → Settings → Option Client
new_client load_default_config cfg =
    if load_default_config (load_options cfg)
    then some (record {
      input_url = cfg.input_queue_url;
      output_url = cfg.output_queue_url;
      dlq_url = cfg.dlq_url;
    })
    else none

-- The requests, with the fields that the client sets.
pub data Request : Type 0 where
  get_queue_attributes : String → Request
  -- the queue, the body, the group and the deduplication identifier
  send_message : String → String → String → String → Request
  -- the queue, the number of messages, the seconds of the wait and of the visibility timeout
  receive_message : String → ℕ → ℕ → ℕ → Request
  change_message_visibility : String → String → ℤ → Request
  delete_message : String → String → Request

-- A message of the SDK, with the attribute ApproximateReceiveCount.
pub record SdkMessage : Type 0 where
  pub message_id : Option String
  pub receipt_handle : Option String
  pub body : Option String
  pub receive_count : String

-- `response.Messages`, which is empty in the answer to any other request; `none` is an error.
abbrev pub Sdk : Type 0
Sdk = Request → Option (List SdkMessage)

abbrev pub succeeds : Option (List SdkMessage) → Bool
succeeds none = false
succeeds (some _) = true

module _ (atoi : String → ℤ) where
  abbrev pub with_message :
      Option String → Option String → Option String → String → List Message → List Message
  with_message (some id) (some handle) (some body) count rest =
      record { id = id; receipt_handle = handle; body = body; receive_count = atoi count } ∷ rest
  with_message _ _ _ count rest = rest

  -- `for _, message := range response.Messages { … }`
  unfoldable pub read_messages : List SdkMessage → List Message
  read_messages [] = []
  read_messages (m ∷ rest) =
      with_message m.message_id m.receipt_handle m.body m.receive_count (read_messages rest)

  abbrev pub received : Option (List SdkMessage) → Option (List Message)
  received none = none
  received (some messages) = some (read_messages messages)

module _ (sdk : Sdk) (c : Client) where
  abbrev pub all_ready : List String → Bool
  all_ready [] = true
  all_ready (url ∷ urls) =
      let rest = all_ready urls in if succeeds (sdk (get_queue_attributes url)) then rest else false

  -- `Ready`
  unfoldable pub ready : Bool
  ready = all_ready (c.input_url ∷ c.output_url ∷ c.dlq_url ∷ [])

  -- `Receive`
  unfoldable pub receive : (String → ℤ) → Option (List Message)
  receive atoi = received atoi (sdk (receive_message c.input_url 1 10 30))

  -- `DeadLetter`
  unfoldable pub dead_letter : Message → Bool
  dead_letter m = succeeds (sdk (send_message c.dlq_url m.body m.id m.id))

  -- `ChangeVisibility`
  unfoldable pub change_visibility : String → ℕ → Bool
  change_visibility handle delay =
      succeeds (sdk (change_message_visibility c.input_url handle (visibility_seconds delay)))

  -- `Delete`
  unfoldable pub delete : String → Bool
  delete handle = succeeds (sdk (delete_message c.input_url handle))

  -- `Publish`
  unfoldable pub publish : String → String → String → Bool
  publish event_id group_id payload =
      if event_id == "" || group_id == ""
      then false
      else succeeds (sdk (send_message c.output_url payload group_id event_id))
