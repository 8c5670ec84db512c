-- ===== src/Http/Status.antt =====
-- The statuses of include/http/response.hpp, and `parse_status` of src/http/response.cpp.
pub mod Text
use cppnet.Prelude.Chars.{from_chars, number, refused}
use cppnet.Prelude.{ℕ, List, [], ◌∷◌, Bool, codes, drop, if◌then◌else◌, leb, ltb, ◌&&◌, ◌==◌, ◌^◌}

-- The enum `status`. Any number of 32 bits is a value of it: `parse_status` makes them.
abbrev pub Status : Type 0
Status = ℕ

abbrev pub no_status : Status
no_status = 0

abbrev pub continue : Status
continue = 100

abbrev pub switching_protocols : Status
switching_protocols = 101

abbrev pub processing : Status
processing = 102

abbrev pub ok : Status
ok = 200

abbrev pub created : Status
created = 201

abbrev pub accepted : Status
accepted = 202

abbrev pub non_authoritative_information : Status
non_authoritative_information = 203

abbrev pub no_content : Status
no_content = 204

abbrev pub reset_content : Status
reset_content = 205

abbrev pub partial_content : Status
partial_content = 206

abbrev pub multi_status : Status
multi_status = 207

abbrev pub already_reported : Status
already_reported = 208

abbrev pub im_used : Status
im_used = 226

abbrev pub multiple_choices : Status
multiple_choices = 300

abbrev pub moved_permanently : Status
moved_permanently = 301

abbrev pub found : Status
found = 302

abbrev pub see_other : Status
see_other = 303

abbrev pub not_modified : Status
not_modified = 304

abbrev pub use_proxy : Status
use_proxy = 305

abbrev pub temporary_redirect : Status
temporary_redirect = 307

abbrev pub permanent_redirect : Status
permanent_redirect = 308

abbrev pub bad_request : Status
bad_request = 400

abbrev pub unauthorized : Status
unauthorized = 401

abbrev pub payment_required : Status
payment_required = 402

abbrev pub forbidden : Status
forbidden = 403

abbrev pub not_found : Status
not_found = 404

abbrev pub method_not_allowed : Status
method_not_allowed = 405

abbrev pub not_acceptable : Status
not_acceptable = 406

abbrev pub proxy_authentication_required : Status
proxy_authentication_required = 407

abbrev pub request_timeout : Status
request_timeout = 408

abbrev pub conflict : Status
conflict = 409

abbrev pub gone : Status
gone = 410

abbrev pub length_required : Status
length_required = 411

abbrev pub precondition_failed : Status
precondition_failed = 412

abbrev pub payload_too_large : Status
payload_too_large = 413

abbrev pub request_uri_too_long : Status
request_uri_too_long = 414

abbrev pub unsupported_media_type : Status
unsupported_media_type = 415

abbrev pub requested_range_not_satisfiable : Status
requested_range_not_satisfiable = 416

abbrev pub expectation_failed : Status
expectation_failed = 417

abbrev pub im_a_teapot : Status
im_a_teapot = 418

abbrev pub misdirected_request : Status
misdirected_request = 421

abbrev pub unprocessable_entity : Status
unprocessable_entity = 422

abbrev pub locked : Status
locked = 423

abbrev pub failed_dependency : Status
failed_dependency = 424

abbrev pub upgrade_required : Status
upgrade_required = 426

abbrev pub precondition_required : Status
precondition_required = 428

abbrev pub too_many_requests : Status
too_many_requests = 429

abbrev pub request_header_fields_too_large : Status
request_header_fields_too_large = 431

abbrev pub connection_closed_without_response : Status
connection_closed_without_response = 444

abbrev pub unavailable_for_legal_reasons : Status
unavailable_for_legal_reasons = 451

abbrev pub client_closed_request : Status
client_closed_request = 499

abbrev pub internal_server_error : Status
internal_server_error = 500

abbrev pub not_implemented : Status
not_implemented = 501

abbrev pub bad_gateway : Status
bad_gateway = 502

abbrev pub service_unavailable : Status
service_unavailable = 503

abbrev pub gateway_timeout : Status
gateway_timeout = 504

abbrev pub http_version_not_supported : Status
http_version_not_supported = 505

abbrev pub variant_also_negotiates : Status
variant_also_negotiates = 506

abbrev pub insufficient_storage : Status
insufficient_storage = 507

abbrev pub loop_detected : Status
loop_detected = 508

abbrev pub not_extended : Status
not_extended = 510

abbrev pub network_authentication_required : Status
network_authentication_required = 511

abbrev pub network_connect_timeout_error : Status
network_connect_timeout_error = 599

-- The cases of `status_text`.
abbrev pub status_cases : List (Status × List ℕ)
status_cases =
    (continue, codes "100 Continue")
    ∷ (switching_protocols, codes "101 Switching Protocols")
    ∷ (processing, codes "102 Processing")
    ∷ (ok, codes "200 OK")
    ∷ (created, codes "201 Created")
    ∷ (accepted, codes "202 Accepted")
    ∷ (non_authoritative_information, codes "203 Non-Authoritative Information")
    ∷ (no_content, codes "204 No Content")
    ∷ (reset_content, codes "205 Reset Content")
    ∷ (partial_content, codes "206 Partial Content")
    ∷ (multi_status, codes "207 Multi-Status")
    ∷ (already_reported, codes "208 Already Reported")
    ∷ (im_used, codes "226 IM Used")
    ∷ (multiple_choices, codes "300 Multiple Choices")
    ∷ (moved_permanently, codes "301 Moved Permanently")
    ∷ (found, codes "302 Found")
    ∷ (see_other, codes "303 See Other")
    ∷ (not_modified, codes "304 Not Modified")
    ∷ (use_proxy, codes "305 Use Proxy")
    ∷ (temporary_redirect, codes "307 Temporary Redirect")
    ∷ (permanent_redirect, codes "308 Permanent Redirect")
    ∷ (bad_request, codes "400 Bad Request")
    ∷ (unauthorized, codes "401 Unauthorized")
    ∷ (payment_required, codes "402 Payment Required")
    ∷ (forbidden, codes "403 Forbidden")
    ∷ (not_found, codes "404 Not Found")
    ∷ (method_not_allowed, codes "405 Method Not Allowed")
    ∷ (not_acceptable, codes "406 Not Acceptable")
    ∷ (proxy_authentication_required, codes "407 Proxy Authentication Required")
    ∷ (request_timeout, codes "408 Request Timeout")
    ∷ (conflict, codes "409 Conflict")
    ∷ (gone, codes "410 Gone")
    ∷ (length_required, codes "411 Length Required")
    ∷ (precondition_failed, codes "412 Precondition Failed")
    ∷ (payload_too_large, codes "413 Payload Too Large")
    ∷ (request_uri_too_long, codes "414 Request-Uri Too Long")
    ∷ (unsupported_media_type, codes "415 Unsupported Media Type")
    ∷ (requested_range_not_satisfiable, codes "416 Requested Range Not Satisfiable")
    ∷ (expectation_failed, codes "417 Expectation Failed")
    ∷ (im_a_teapot, codes "418 I'm A Teapot")
    ∷ (misdirected_request, codes "421 Misdirected Request")
    ∷ (unprocessable_entity, codes "422 Unprocessable Entity")
    ∷ (locked, codes "423 Locked")
    ∷ (failed_dependency, codes "424 Failed Dependency")
    ∷ (upgrade_required, codes "426 Upgrade Required")
    ∷ (precondition_required, codes "428 Precondition Required")
    ∷ (too_many_requests, codes "429 Too Many Requests")
    ∷ (request_header_fields_too_large, codes "431 Request Header Fields Too Large")
    ∷ (connection_closed_without_response, codes "444 Connection Closed Without Response")
    ∷ (unavailable_for_legal_reasons, codes "451 Unavailable For Legal Reasons")
    ∷ (client_closed_request, codes "499 Client Closed Request")
    ∷ (internal_server_error, codes "500 Internal Server Error")
    ∷ (not_implemented, codes "501 Not Implemented")
    ∷ (bad_gateway, codes "502 Bad Gateway")
    ∷ (service_unavailable, codes "503 Service Unavailable")
    ∷ (gateway_timeout, codes "504 Gateway Timeout")
    ∷ (http_version_not_supported, codes "505 Http Version Not Supported")
    ∷ (variant_also_negotiates, codes "506 Variant Also Negotiates")
    ∷ (insufficient_storage, codes "507 Insufficient Storage")
    ∷ (loop_detected, codes "508 Loop Detected")
    ∷ (not_extended, codes "510 Not Extended")
    ∷ (network_authentication_required, codes "511 Network Authentication Required")
    ∷ (network_connect_timeout_error, codes "599 Network Connect Timeout Error")
    ∷ []

abbrev pub case_text : Status → List (Status × List ℕ) → List ℕ
case_text s [] = codes "XXX Unknown"
case_text s (e ∷ cases) = if s == e.0 then e.1 else case_text s cases

unfoldable pub status_text : Status → List ℕ
status_text s = case_text s status_cases

-- What stands behind the code.
pub status_string : Status → List ℕ
unfolding status_text
status_string s = drop 4 (status_text s)

pub status_is_information : Status → Bool
status_is_information s = leb continue s && ltb s ok

pub status_is_success : Status → Bool
status_is_success s = leb ok s && ltb s multiple_choices

pub status_is_redirection : Status → Bool
status_is_redirection s = leb multiple_choices s && ltb s bad_request

pub status_is_client_error : Status → Bool
status_is_client_error s = leb bad_request s && ltb s internal_server_error

pub status_is_server_error : Status → Bool
status_is_server_error s = leb internal_server_error s

unfoldable pub parse_status : List ℕ → Status
parse_status str = elim (from_chars (2 ^ 32) str) [ number v ↦ v | refused e ↦ no_status ]
