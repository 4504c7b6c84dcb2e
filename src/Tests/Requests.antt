-- ===== src/Tests/Requests.antt =====
-- The header block of a small request.
use http_request_client.Prelude.{
  ℕ, ◌≤◌, ◌<◌, ◌≡◌, ◌↔◌, refl, inl, inr, List, [], ◌∷◌, All, arith, length, true, false,
}
use http_request_client.Prelude.Text.{codes}
use http_request_client.Errors.{err_none}
use http_request_client.Hpack.Huffman.{hpack_huffman_encode}
use http_request_client.Hpack.Huffman.Encoding.{IsEncodable}
use http_request_client.Hpack.Huffman.Table.{huffman_code}
use http_request_client.Hpack.Table.{HpackContext}
use http_request_client.Hpack.Table.Fits.{context}
use http_request_client.Request.Order.{RequestHeader}
use http_request_client.Http2.Requests.Reading.{IsText}
use http_request_client.Http2.Requests.{Written, hpack_headers}
use http_request_client.Http2.Requests.Overflow.{OutgrowsBuffers, hpack_headers_overflows}
use http_request_client.Http2.Requests.Pseudo.{is_known}
use http_request_client.Http2.Requests.Blocks.{
  IsSent, IsRoundTrip, decode_headers_frame-header_block,
}

-- "hi"
abbrev hi : List ℕ
hi = 104 ∷ 105 ∷ []

h-IsEncodable : IsEncodable 104
unfolding huffman_code
h-IsEncodable = record { byte = omega arith; short = omega arith }

i-IsEncodable : IsEncodable 105
unfolding huffman_code
i-IsEncodable = record { byte = omega arith; short = omega arith }

a-IsEncodable : IsEncodable 97
unfolding huffman_code
a-IsEncodable = record { byte = omega arith; short = omega arith }

v-IsEncodable : IsEncodable 118
unfolding huffman_code
v-IsEncodable = record { byte = omega arith; short = omega arith }

hi_short : length (hpack_huffman_encode hi) < 127
unfolding hpack_huffman_encode huffman_code
hi_short = omega arith

hi_compact : length (hpack_huffman_encode hi) ≤ length hi
unfolding hpack_huffman_encode huffman_code
hi_compact = omega arith

hi-IsText : IsText hi
hi-IsText = record {
  encodable = (h-IsEncodable, (i-IsEncodable, tt));
  no_zero = (omega arith, (omega arith, tt));
  short = omega (arith, hi_short);
  compact = hi_compact;
}

abbrev via : List ℕ
via = codes "via"

via_short : length (hpack_huffman_encode via) < 127
unfolding hpack_huffman_encode huffman_code
via_short = omega arith

via_compact : length (hpack_huffman_encode via) ≤ length via
unfolding hpack_huffman_encode huffman_code
via_compact = omega arith

via-IsText : IsText via
via-IsText = record {
  encodable = (v-IsEncodable, (i-IsEncodable, (a-IsEncodable, tt)));
  no_zero = (omega arith, (omega arith, (omega arith, tt)));
  short = omega (arith, via_short);
  compact = via_compact;
}

colon-IsEncodable : IsEncodable 58
unfolding huffman_code
colon-IsEncodable = record { byte = omega arith; short = omega arith }

p-IsEncodable : IsEncodable 112
unfolding huffman_code
p-IsEncodable = record { byte = omega arith; short = omega arith }

t-IsEncodable : IsEncodable 116
unfolding huffman_code
t-IsEncodable = record { byte = omega arith; short = omega arith }

abbrev path : List ℕ
path = codes ":path"

path_short : length (hpack_huffman_encode path) < 127
unfolding hpack_huffman_encode huffman_code
path_short = omega arith

path_compact : length (hpack_huffman_encode path) ≤ length path
unfolding hpack_huffman_encode huffman_code
path_compact = omega arith

path-IsText : IsText path
path-IsText = record {
  encodable =
      (colon-IsEncodable, (p-IsEncodable, (a-IsEncodable, (t-IsEncodable, (h-IsEncodable, tt)))));
  no_zero = (omega arith, (omega arith, (omega arith, (omega arith, (omega arith, tt)))));
  short = omega (arith, path_short);
  compact = path_compact;
}

path_known : is_known path ≡ true
unfolding is_known
path_known = refl

-- A pseudo header, a name of the static table, and another one.
abbrev small : List RequestHeader
small =
    record { name = path; value = hi; is_pseudo = true }
    ∷ record { name = via; value = hi; is_pseudo = false }
    ∷ record { name = hi; value = hi; is_pseudo = false }
    ∷ []

small-IsSent : All IsSent small
small-IsSent = (
  record {
    known = inr path_known;
    sendable = record { name = path-IsText; value = hi-IsText; short_name = path_short };
  },
  (
    record {
      known = inl refl;
      sendable = record { name = via-IsText; value = hi-IsText; short_name = via_short };
    },
    (
      record {
        known = inl refl;
        sendable = record { name = hi-IsText; value = hi-IsText; short_name = hi_short };
      },
      tt,
    ),
  ),
)

abbrev empty_table : HpackContext
empty_table = context [] 0 4096

decode_headers_frame-header_block_example : IsRoundTrip small err_none empty_table
decode_headers_frame-header_block_example =
    decode_headers_frame-header_block small err_none empty_table small-IsSent (omega arith)

-- A value whose one code has 19 bits.
abbrev backslash : RequestHeader
backslash = record { name = via; value = codes "\\"; is_pseudo = false }

hpack_headers_overflows_example :
    (hpack_headers backslash ≡ Written.overflow) ↔ OutgrowsBuffers backslash
hpack_headers_overflows_example = hpack_headers_overflows backslash
