-- ===== src/PduDispatch/Sample.antt =====
-- A dispatcher of one model, whose messages carry the handle that they answer.
use pysnmp.Base.Eq.{nat_eq}
use pysnmp.Base.{[], if◌then◌else◌, none, some, true, ℕ, ◌+◌, ◌==◌, ◌∷◌}
use pysnmp.PduDispatch.{
  DataElements, Engine, Octets, Outgoing, Pending, Request, Result, World, and_then, ok,
  protocol_error, raised,
}
use pysnmp.PduDispatch.Send.{Sending, send_pdu}

abbrev pub request_of : ℕ → Request ℕ
request_of pdu = record {
  domain = 1 ∷ [];
  address = 2 ∷ [];
  model = 3;
  security_model = 3;
  security_name = [];
  security_level = 1;
  context_engine_id = [];
  context_name = [];
  pdu_version = 1;
  pdu = pdu;
}

abbrev pub elements_of : ℕ → DataElements ℕ
elements_of h = record {
  model = 3;
  security_model = 3;
  security_name = [];
  security_level = 1;
  context_engine_id = 8 ∷ [];
  context_name = [];
  pdu_version = 1;
  pdu = 40;
  pdu_type = 0;
  send_pdu_handle = some h;
  max_size = 484;
  status = none;
  state_reference = none;
}

abbrev pub handle_in : Octets → ℕ
handle_in [] = 0
handle_in (h ∷ rest) = h

-- The PDU 9 cannot be prepared.
abbrev pub outgoing : Request ℕ → ℕ → Result Outgoing
outgoing r h =
    if r.pdu == 9
    then raised protocol_error
    else ok (record { domain = r.domain; address = r.address; message = h ∷ [] })

abbrev pub pending : ℕ → ℕ → Pending ℕ
pending h timeout = record {
  model = 3;
  handle = h;
  timeout = timeout;
  callback = 70;
  context = 71;
  request = some (request_of 1);
}

-- Callbacks that do nothing.
abbrev pub idle_world : World ℕ ℕ
idle_world = record {
  models = record {
    has_model = λ m. m == 3;
    prepare_outgoing_message = λ r expected h x. (outgoing r h, x + 1);
    prepare_response_message = λ d status x. (raised protocol_error, x);
    prepare_data_elements = λ v domain address message x. (ok (elements_of (handle_in message)), x);
    release_state_information = λ model h x. (ok tt, x);
  };
  message_version = λ message. some 3;
  send_message = λ out. none;
  can_defer = true;
  respond = λ c s. (ok tt, s);
  process_pdu = λ c s. (ok none, s);
  resume = λ work s. (ok tt, s);
}

abbrev pub engine : Engine ℕ ℕ
engine = record {
  cache = [];
  apps = [];
  handles = record { maximum = 100; increment = 4; threshold = 2; bank = 5 ∷ 6 ∷ 7 ∷ [] };
  transport_info = [];
  counters = record {
    in_pkts = 0;
    in_asn_parse_errs = 0;
    in_bad_versions = 0;
    unknown_pdu_handlers = 0;
    silent_drops = 0;
  };
  models = 0;
  has_transport = true;
  now = 10;
  max_message_size = 484;
  sent = [];
  calls = [];
  deferred = [];
}

abbrev pub sending : ℕ → Sending ℕ
sending pdu = record {
  request = request_of pdu;
  expect_response = true;
  timeout = 3;
  callback = 70;
  context = 71;
}

-- The callback of a request sends it again.
abbrev pub world : World ℕ ℕ
world = record idle_world {
  respond = λ c s. and_then (send_pdu idle_world (sending 1) s) (λ h t. (ok tt, t));
}

-- The handles 5 and 6 are pending; the next is 7.
abbrev pub busy : Engine ℕ ℕ
busy = record engine {
  cache = (5, pending 5 9) ∷ (6, pending 6 13) ∷ [];
  handles = record engine.handles { bank = 7 ∷ 8 ∷ 9 ∷ [] };
}
