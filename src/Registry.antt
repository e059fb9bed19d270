-- ===== src/Registry.antt =====
-- registry.rs: the client of the registry. HTTP is `Host.http`; a call takes the turn of its request.
-- The timeouts are the HTTP client's. Of an error the source keeps a message: here it is what that
-- message is made of.
pub mod Base
use my_domain_core.Prelude.{
  if◌then◌else◌, nat_eq, string_eq, ◌==◌, ℕ, String, Bool, true, false, Option, none, some, List,
}
use my_domain_core.Prelude.Result.{Result, ok, err, ok_or, ◌>>=◌}
use Prim.Native.String.{◌++◌ as append}
use my_domain_core.Model.{Identity, TokenResp, RegistryDevice, ProbeResult}
use my_domain_core.Model.Json.{
  Value, object, field, end, string, bool, null, array, of_strings, of_option, str_field,
}
use my_domain_core.Host.{Host, HttpOutcome, response, status, transport}
use Base.{base}

-- The server's own message, the status it returned, a transport error, or a body that cannot be read.
pub data HttpError : Type 0 where
  server_said : String → HttpError
  server_returned : ℕ → HttpError
  not_sent : String → HttpError
  bad_body : HttpError

abbrev pub Called : Type 0
Called = Result HttpError Unit

module _ (h : Host) where
  -- `http_err` of an error status: the body's "error" text, if there is one.
  unfoldable pub status_error : ℕ → String → HttpError
  status_error code body = elim (h.json_from_str body) [
    | none ↦ server_returned code
    | some v ↦ elim (str_field v "error") [ none ↦ server_returned code | some e ↦ server_said e ]
  ]

  -- `.map_err(http_err)`: the body of a response.
  unfoldable pub body_of : HttpOutcome → Result HttpError String
  unfolding status_error
  body_of (response body) = ok body
  body_of (status code body) = err (status_error code body)
  body_of (transport e) = err (not_sent e)

  unfoldable pub post : ℕ → String → String → Option String → Value → HttpOutcome
  post turn url path bearer body =
      h.http turn (record {
        method = "POST";
        url = append (base url) path;
        bearer = bearer;
        body = some body;
      })

  unfoldable pub get_request : ℕ → String → String → Option String → HttpOutcome
  get_request turn url path bearer =
      h.http turn
        (record { method = "GET"; url = append (base url) path; bearer = bearer; body = none })

  abbrev pub credentials : String → String → Value
  credentials username password =
      object (field "username" (string username) (field "password" (string password) end))

  unfoldable pub auth_call : ℕ → String → String → String → String → Result HttpError TokenResp
  auth_call turn url path username password = do
    body ← body_of (post turn url path none (credentials username password))
    ok_or (h.token_from_body body) bad_body

  -- A 401 is the answer "no", every other error an error.
  unfoldable pub verify_outcome : HttpOutcome → Result HttpError Bool
  verify_outcome (response body) = ok true
  verify_outcome (status code body) = if code == 401 then ok false else err (status_error code body)
  verify_outcome (transport e) = err (not_sent e)

  unfoldable pub verify_password_call : ℕ → String → String → String → Result HttpError Bool
  verify_password_call turn url username password =
      verify_outcome (post turn url "/auth/verify" none (credentials username password))

  -- A call whose response is only looked at for an error.
  unfoldable pub command : ℕ → String → String → String → Value → Called
  command turn url path token body = do
    answer ← body_of (post turn url path (some token) body)
    ok tt

  -- The numbers go into the body as the literals that `show` makes of them.
  unfoldable pub registry_register :
      ℕ → String → String → Identity → Option String → String → Bool → Called
  registry_register turn url token id fcm_token platform supports_ipv6 =
      command turn url "/devices/register" token (
        object (
          field "node_id" (string id.node_id) (
            field "name" (string id.name) (
              field "ip" (string id.ip) (
                field "tcp_port" (h.json_number id.tcp_port) (
                  field "udp_port" (h.json_number id.udp_port) (
                    field "ws_port" (h.json_number id.ws_port) (
                      field "fcm_token" (of_option fcm_token) (
                        field "platform" (string platform)
                          (field "supports_ipv6" (bool supports_ipv6) end))))))))))

  unfoldable pub send_signal : ℕ → String → String → String → String → String → Value → Called
  send_signal turn url token from to kind payload = command turn url "/signal" token (
      object (
        field "from" (string from)
          (field "to" (string to) (field "type" (string kind) (field "data" payload end)))))

  unfoldable pub send_selfping : ℕ → String → String → String → String → Called
  send_selfping turn url token node_id sid =
      command turn url "/signal/selfping" token
        (object (field "node_id" (string node_id) (field "sid" (string sid) end)))

  abbrev pub of_bool : Option Bool → Value
  of_bool none = null
  of_bool (some b) = bool b

  abbrev pub of_port : Option ℕ → Value
  of_port none = null
  of_port (some n) = h.json_number n

  unfoldable pub update_device_state :
      ℕ → String → String → String → Option Bool → Option Bool → Option String → Option ℕ → Called
  update_device_state turn url token node_id ws_open inbound_blocked reflexive_ip
        reflexive_udp_port =
      command turn url "/devices/state" token (
        object (
          field "node_id" (string node_id) (
            field "ws_open" (of_bool ws_open) (
              field "inbound_blocked" (of_bool inbound_blocked) (
                field "reflexive_ip" (of_option reflexive_ip)
                  (field "reflexive_udp_port" (of_port reflexive_udp_port) end))))))

  unfoldable pub probe_inbound :
      ℕ → String → String → String → List String → Result HttpError ProbeResult
  probe_inbound turn url token node_id checks = do
    body ← body_of (
        post turn url "/devices/probe" (some token) (
          object
            (field "node_id" (string node_id) (field "check" (array (of_strings checks)) end))))
    ok_or (h.probe_from_body body) bad_body

  unfoldable pub health_ok : ℕ → String → Bool
  health_ok turn url = elim (get_request turn url "/health" none) [
    | response body ↦ true
    | _ ↦ false
  ]

  unfoldable pub registry_fetch :
      ℕ → String → String → String → Result HttpError (List RegistryDevice)
  registry_fetch turn url token exclude = do
    body ← body_of (get_request turn url (append "/devices?exclude=" exclude) (some token))
    ok_or (h.devices_from_body body) bad_body
