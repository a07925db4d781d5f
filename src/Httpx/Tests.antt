-- ===== src/Httpx/Tests.antt =====
-- Runs of httpx/, and the witnesses.
mod Ip
mod Record
mod Recovered
mod Middleware
mod Transports
mod Logger
use servicekit_go.Base.{
  ℕ, false, List, [], ◌∷◌, ◌++◌, Text, codes, length, Option, none, text_eq, inr,
}
use servicekit_go.Httpx.Envelope.{Json}
use servicekit_go.Httpx.Recorder.{Writer}
use servicekit_go.Httpx.Web.{Web}

-- A writer that keeps the bytes and the statuses it gets, and cannot be hijacked.
abbrev pub sink : Writer
sink = record {
  State = Text;
  Written = ℕ;
  Conn = Unit;
  Error = Text;
  set_header = λ k v s. s;
  write = λ b s. (length b, s ++ b);
  write_header = λ code s. s ++ code ∷ [];
  hijack = λ s. (inr (codes "not supported"), s);
  flush = λ s. (none, s);
}

abbrev pub plain_web : Web
plain_web = record {
  wide_lower = λ c. c;
  equal_fold = text_eq;
  parse_query = λ s. ((codes "Access_Token", s ∷ []) ∷ [], false);
  encode = λ q. codes "encoded";
  request_uri = λ u. u.path ++ u.raw_query;
  json_valid = λ s. false;
}

abbrev pub plain_json : Json
plain_json = record {
  Data = Text;
  marshal = λ d. none;
  marshal_string = λ s. b'"' ∷ (s ++ (b'"' ∷ []));
}
