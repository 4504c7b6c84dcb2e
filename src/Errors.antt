-- ===== src/Errors.antt =====
-- The error values of src/utils/Error.c. `ERR_NONE` has NULL for its code and message.
use Prim.Native.String.{String}
use http_request_client.Prelude.{Bool, true, false, Option, none, some, List, [], ◌∷◌}

pub record Error : Type 0 where
  pub code : Option String
  pub msg : Option String

abbrev error : String → String → Error
error code msg = record { code = some code; msg = some msg }

abbrev pub is_some {ℓ} : {A : Type ℓ} → Option A → Bool
is_some none = false
is_some (some a) = true

-- The test `error.code != NULL`.
abbrev pub is_error : Error → Bool
is_error e = is_some e.code

abbrev pub err_none : Error
err_none = record { code = none; msg = none }

abbrev pub err_system_memory_allocation_failed : Error
err_system_memory_allocation_failed = error "0-0000" "System memory allocation failed."

abbrev pub err_system_shared_memory_not_exit : Error
err_system_shared_memory_not_exit = error "0-0001" "Shared memory may not exist (Daemon)."

abbrev pub err_system_shared_memory_mmap_failed : Error
err_system_shared_memory_mmap_failed = error "0-0002" "Shared memory mmap failed."

abbrev pub err_session_ssl_connect_failed : Error
err_session_ssl_connect_failed = error "1-0001" "SSL_connect failed."

abbrev pub err_session_ssl_alpn_negotiation_failed : Error
err_session_ssl_alpn_negotiation_failed = error "1-0002" "SSL ALPN negotiation failed."

abbrev pub err_session_magic_incorrect : Error
err_session_magic_incorrect = error "1-0003" "Session magic incorrect."

abbrev pub err_session_inactive : Error
err_session_inactive = error "1-0004" "Session is inactive."

abbrev pub err_session_host_resolve_failed : Error
err_session_host_resolve_failed = error "1-0005" "Session host resolve failed."

abbrev pub err_session_socket_creation_failed : Error
err_session_socket_creation_failed = error "1-0006" "Session socket creation failed."

abbrev pub err_session_socket_nonblock_setting_failed : Error
err_session_socket_nonblock_setting_failed =
    error "1-0007" "Failed to set session socket non-block."

abbrev pub err_session_socket_connecting_failed : Error
err_session_socket_connecting_failed = error "1-0008" "Session socket connecting failed."

abbrev pub err_session_socket_invalid_file_descriptor : Error
err_session_socket_invalid_file_descriptor =
    error "1-0009" "Session socket invalid file descriptor."

abbrev pub err_session_socket_connecting_timeout : Error
err_session_socket_connecting_timeout = error "1-0010" "Session socket connecting timeout."

abbrev pub err_session_socket_no_available_address : Error
err_session_socket_no_available_address = error "1-0011" "Session socket no available address."

abbrev pub err_session_socket_connecting_unknown_error : Error
err_session_socket_connecting_unknown_error =
    error "1-0012" "Session socket connecting unknown error."

abbrev pub err_session_ssl_ctx_creation_failed : Error
err_session_ssl_ctx_creation_failed = error "1-0013" "Ssl context creation failed."

abbrev pub err_session_ssl_object_creation_failed : Error
err_session_ssl_object_creation_failed = error "1-0014" "Ssl object creation failed."

abbrev pub err_session_ssl_failed_to_associate_socket : Error
err_session_ssl_failed_to_associate_socket = error "1-0015" "Ssl failed to associate with a socket."

abbrev pub err_session_failed_to_connect_to_shared_memory_pool : Error
err_session_failed_to_connect_to_shared_memory_pool =
    error "1-0016" "Failed to connect to shared session memory pool."

abbrev pub err_session_socket_connecting_refused : Error
err_session_socket_connecting_refused = error "1-0017" "Session socket connection refused."

abbrev pub err_session_settings_timeout : Error
err_session_settings_timeout = error "1-0018" "Session settings timeout."

abbrev pub err_session_go_away : Error
err_session_go_away = error "1-0019" "Session goes away without error."

abbrev pub err_session_ssl_alpn_http2_not_selected : Error
err_session_ssl_alpn_http2_not_selected =
    error "1-0020" "ALPN negotiation did not select h2; server likely only supports http/1.1."

abbrev pub err_session_http_1_1_required : Error
err_session_http_1_1_required =
    error "1-0021" "Server requires HTTP/1.1 (HTTP_1_1_REQUIRED); downgrade and retry."

abbrev pub err_request_parsing_string_to_json_failed : Error
err_request_parsing_string_to_json_failed = error "2-0001" "Parsing request string to json failed."

abbrev pub err_request_missing_headers : Error
err_request_missing_headers = error "2-0002" "Missing request headers."

abbrev pub err_request_parsing_url_failed : Error
err_request_parsing_url_failed = error "2-0003" "Parsing request URL failed."

abbrev pub err_request_parsing_method_failed : Error
err_request_parsing_method_failed = error "2-0004" "Parsing request method failed."

abbrev pub err_request_parsing_useragent_failed : Error
err_request_parsing_useragent_failed = error "2-0005" "Parsing request header user-agent failed."

abbrev pub err_request_parsing_contentlength_failed : Error
err_request_parsing_contentlength_failed =
    error "2-0006" "Parsing request header content-length failed."

abbrev pub err_request_incorrect_contentlength_type : Error
err_request_incorrect_contentlength_type =
    error "2-0007" "The value type of request header content-length must be string."

abbrev pub err_request_incorrect_contentlength_mismatch : Error
err_request_incorrect_contentlength_mismatch =
    error "2-0017"
      "The value of request header content-length does not match the actual payload byte length."

abbrev pub err_request_unsupported_method : Error
err_request_unsupported_method =
    error "2-0008" "Unsupported method, GET, POST, PUT, PATCH and DELETE supported only."

abbrev pub err_request_unsupported_useragent : Error
err_request_unsupported_useragent =
    error "2-0009" "Unsupported user-agent, Google Chrome supported only."

abbrev pub err_request_sending_http2_headers_frame_failed : Error
err_request_sending_http2_headers_frame_failed =
    error "2-0010" "Sending http/2 headers frame failed."

abbrev pub err_request_sending_http2_data_frame_failed : Error
err_request_sending_http2_data_frame_failed = error "2-0011" "Sending http/2 data frame failed."

abbrev pub err_request_sending_http2_preface_frame_failed : Error
err_request_sending_http2_preface_frame_failed =
    error "2-0012" "Sending http/2 preface frame failed."

abbrev pub err_request_sending_http2_settings_frame_failed : Error
err_request_sending_http2_settings_frame_failed =
    error "2-0013" "Sending http/2 settings frame failed."

abbrev pub err_request_sending_http2_window_update_frame_failed : Error
err_request_sending_http2_window_update_frame_failed =
    error "2-0014" "Sending http/2 window update frame failed."

abbrev pub err_request_unknown_pseudo_header : Error
err_request_unknown_pseudo_header = error "2-0015" "Unknown pseudo header name."

abbrev pub err_request_unsupported_clienthelloid : Error
err_request_unsupported_clienthelloid =
    error "2-0016"
      "Unsupported clientHelloId, e.g. hellochrome_auto / hellochrome_150 / hellocrios_auto."

abbrev pub err_request_header_order_key_missing_header : Error
err_request_header_order_key_missing_header =
    error "2-0017" "A request header is not listed in the X-HeaderOrderKey ordered list."

abbrev pub err_request_unsupported_protocol : Error
err_request_unsupported_protocol =
    error "2-0018" "Unsupported session protocol, h2 (default) and http/1.1 supported only."

abbrev pub err_request_sending_http11_request_failed : Error
err_request_sending_http11_request_failed = error "2-0019" "Sending http/1.1 request failed."

abbrev pub err_response_reading_connection_error : Error
err_response_reading_connection_error = error "3-0001" "Response reading connection error."

abbrev pub err_response_reading_unknown_error : Error
err_response_reading_unknown_error = error "3-0002" "Response reading unknown error."

abbrev pub err_response_no_content_after_reading_timeout : Error
err_response_no_content_after_reading_timeout =
    error "3-0003" "Response reading timeout, no content received."

abbrev pub err_response_partial_content_after_reading_timeout : Error
err_response_partial_content_after_reading_timeout =
    error "3-0004" "Response reading timeout, partial content received."

abbrev pub err_response_decoding_headers_frame_failed : Error
err_response_decoding_headers_frame_failed =
    error "3-0005" "Decoding response HEADERS frame failed."

abbrev pub err_response_decoding_goaway_frame_failed : Error
err_response_decoding_goaway_frame_failed = error "3-0006" "Decoding response GOAWAY frame failed."

abbrev pub err_response_gzip_inflate_failed : Error
err_response_gzip_inflate_failed = error "3-0007" "Response (gzip) Inflate failed."

abbrev pub err_response_brotli_inflate_failed : Error
err_response_brotli_inflate_failed = error "3-0008" "Response (brotli) Inflate failed."

abbrev pub err_response_deflate_inflate_failed : Error
err_response_deflate_inflate_failed = error "3-0009" "Response (deflate) Inflate failed."

abbrev pub err_response_zstd_inflate_failed : Error
err_response_zstd_inflate_failed = error "3-0010" "Response (zstd) Inflate failed."

abbrev pub err_response_inflate_unknown_error : Error
err_response_inflate_unknown_error = error "3-0011" "Response inflate unknown error."

abbrev pub err_response_rst_stream_error : Error
err_response_rst_stream_error = error "3-0012" "Response RST_STREAM unknown error."

abbrev pub err_response_reading_http11_failed : Error
err_response_reading_http11_failed = error "3-0013" "Reading/parsing http/1.1 response failed."

abbrev pub err_response_stream_aborted_by_consumer : Error
err_response_stream_aborted_by_consumer =
    error "3-0014" "Response streaming aborted by the consumer."

abbrev pub err_response_stream_incomplete_contract : Error
err_response_stream_incomplete_contract =
    error "3-0015" "Response streaming contract requires onHeaders, onData and onComplete."

abbrev pub err_proxy_host_resolve_failed : Error
err_proxy_host_resolve_failed = error "4-0001" "Proxy host resolve failed."

abbrev pub err_proxy_socket_creation_failed : Error
err_proxy_socket_creation_failed = error "4-0002" "Proxy socket creation failed."

abbrev pub err_proxy_socket_nonblock_setting_failed : Error
err_proxy_socket_nonblock_setting_failed = error "4-0003" "Failed to set proxy socket non-block."

abbrev pub err_proxy_socket_connecting_failed : Error
err_proxy_socket_connecting_failed = error "4-0004" "Proxy socket connecting failed."

abbrev pub err_proxy_socket_invalid_file_descriptor : Error
err_proxy_socket_invalid_file_descriptor = error "4-0005" "Proxy socket invalid file descriptor."

abbrev pub err_proxy_socket_connecting_timeout : Error
err_proxy_socket_connecting_timeout = error "4-0006" "Proxy socket connecting timeout."

abbrev pub err_proxy_socket_connecting_unknown_error : Error
err_proxy_socket_connecting_unknown_error = error "4-0007" "Proxy socket connecting unknown error."

abbrev pub err_proxy_send_connect_request_failed : Error
err_proxy_send_connect_request_failed = error "4-0008" "Proxy send connect request failed."

abbrev pub err_proxy_authorization_failed : Error
err_proxy_authorization_failed = error "4-0009" "Proxy authorization failed (407)."

abbrev pub err_proxy_unexpected_response : Error
err_proxy_unexpected_response = error "4-0010" "Proxy unexpected CONNECT response."

abbrev pub err_proxy_socket_connecting_refused : Error
err_proxy_socket_connecting_refused = error "4-0011" "Proxy socket connection refused."

abbrev pub err_proxy_empty_response : Error
err_proxy_empty_response = error "4-0012" "Proxy response is empty."

-- Every error value but `ERR_NONE`, in the order of the file.
unfoldable pub all_errors : List Error
all_errors =
    err_system_memory_allocation_failed ∷ err_system_shared_memory_not_exit
    ∷ err_system_shared_memory_mmap_failed ∷ err_session_ssl_connect_failed
    ∷ err_session_ssl_alpn_negotiation_failed ∷ err_session_magic_incorrect ∷ err_session_inactive
    ∷ err_session_host_resolve_failed ∷ err_session_socket_creation_failed
    ∷ err_session_socket_nonblock_setting_failed ∷ err_session_socket_connecting_failed
    ∷ err_session_socket_invalid_file_descriptor ∷ err_session_socket_connecting_timeout
    ∷ err_session_socket_no_available_address ∷ err_session_socket_connecting_unknown_error
    ∷ err_session_ssl_ctx_creation_failed ∷ err_session_ssl_object_creation_failed
    ∷ err_session_ssl_failed_to_associate_socket
    ∷ err_session_failed_to_connect_to_shared_memory_pool ∷ err_session_socket_connecting_refused
    ∷ err_session_settings_timeout ∷ err_session_go_away ∷ err_session_ssl_alpn_http2_not_selected
    ∷ err_session_http_1_1_required ∷ err_request_parsing_string_to_json_failed
    ∷ err_request_missing_headers ∷ err_request_parsing_url_failed
    ∷ err_request_parsing_method_failed ∷ err_request_parsing_useragent_failed
    ∷ err_request_parsing_contentlength_failed ∷ err_request_incorrect_contentlength_type
    ∷ err_request_incorrect_contentlength_mismatch ∷ err_request_unsupported_method
    ∷ err_request_unsupported_useragent ∷ err_request_sending_http2_headers_frame_failed
    ∷ err_request_sending_http2_data_frame_failed ∷ err_request_sending_http2_preface_frame_failed
    ∷ err_request_sending_http2_settings_frame_failed
    ∷ err_request_sending_http2_window_update_frame_failed ∷ err_request_unknown_pseudo_header
    ∷ err_request_unsupported_clienthelloid ∷ err_request_header_order_key_missing_header
    ∷ err_request_unsupported_protocol ∷ err_request_sending_http11_request_failed
    ∷ err_response_reading_connection_error ∷ err_response_reading_unknown_error
    ∷ err_response_no_content_after_reading_timeout
    ∷ err_response_partial_content_after_reading_timeout
    ∷ err_response_decoding_headers_frame_failed ∷ err_response_decoding_goaway_frame_failed
    ∷ err_response_gzip_inflate_failed ∷ err_response_brotli_inflate_failed
    ∷ err_response_deflate_inflate_failed ∷ err_response_zstd_inflate_failed
    ∷ err_response_inflate_unknown_error ∷ err_response_rst_stream_error
    ∷ err_response_reading_http11_failed ∷ err_response_stream_aborted_by_consumer
    ∷ err_response_stream_incomplete_contract ∷ err_proxy_host_resolve_failed
    ∷ err_proxy_socket_creation_failed ∷ err_proxy_socket_nonblock_setting_failed
    ∷ err_proxy_socket_connecting_failed ∷ err_proxy_socket_invalid_file_descriptor
    ∷ err_proxy_socket_connecting_timeout ∷ err_proxy_socket_connecting_unknown_error
    ∷ err_proxy_send_connect_request_failed ∷ err_proxy_authorization_failed
    ∷ err_proxy_unexpected_response ∷ err_proxy_socket_connecting_refused ∷ err_proxy_empty_response
    ∷ []
