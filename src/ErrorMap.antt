-- ===== src/ErrorMap.antt =====
-- include/linear/error.h: the map of the error codes and their texts, and the codes in use.
use Prim.Native.String.{String}
use linear_cpp.Prelude.{ℕ, List, [], ◌∷◌}

-- `enum ErrorCode`: LNR_OK is 0 and the map's entries follow it, in order.
abbrev pub ErrorCode : Type 0
ErrorCode = ℕ

abbrev pub lnr_ok : ErrorCode
lnr_ok = 0

abbrev pub lnr_eaddrnotavail : ErrorCode
lnr_eaddrnotavail = 3

abbrev pub lnr_ealready : ErrorCode
lnr_ealready = 17

abbrev pub lnr_ebadf : ErrorCode
lnr_ebadf = 18

abbrev pub lnr_ebusy : ErrorCode
lnr_ebusy = 19

abbrev pub lnr_ecanceled : ErrorCode
lnr_ecanceled = 20

abbrev pub lnr_einval : ErrorCode
lnr_einval = 30

abbrev pub lnr_enomem : ErrorCode
lnr_enomem = 44

abbrev pub lnr_enospc : ErrorCode
lnr_enospc = 46

abbrev pub lnr_enotconn : ErrorCode
lnr_enotconn = 48

abbrev pub lnr_eproto : ErrorCode
lnr_eproto = 55

abbrev pub lnr_etimedout : ErrorCode
lnr_etimedout = 62

abbrev pub lnr_unknown : ErrorCode
lnr_unknown = 64

abbrev pub lnr_ex509 : ErrorCode
lnr_ex509 = 66

abbrev pub lnr_essl : ErrorCode
lnr_essl = 67

abbrev pub lnr_ews : ErrorCode
lnr_ews = 68

-- LNR_ERRNO_MAP: a name, without its prefix LNR_ or TV_, and its text.
unfoldable pub errno_map : List (String × String)
errno_map =
    ("EACCES", "permission denied")
    ∷ ("EADDRINUSE", "address already in use")
    ∷ ("EADDRNOTAVAIL", "address not available")
    ∷ ("EAFNOSUPPORT", "address family not supported")
    ∷ ("EAGAIN", "resource temporarily unavailable")
    ∷ ("EAI_ADDRFAMILY", "address family not supported")
    ∷ ("EAI_AGAIN", "temporary failure")
    ∷ ("EAI_BADFLAGS", "bad ai_flags value")
    ∷ ("EAI_CANCELED", "request canceled")
    ∷ ("EAI_FAIL", "permanent failure")
    ∷ ("EAI_FAMILY", "ai_family not supported")
    ∷ ("EAI_MEMORY", "out of memory")
    ∷ ("EAI_NODATA", "no address")
    ∷ ("EAI_NONAME", "unknown node or service")
    ∷ ("EAI_SERVICE", "service not available for socket type")
    ∷ ("EAI_SOCKTYPE", "socket type not supported")
    ∷ ("EALREADY", "connection already in progress")
    ∷ ("EBADF", "bad file descriptor")
    ∷ ("EBUSY", "resource busy or locked")
    ∷ ("ECANCELED", "operation canceled")
    ∷ ("ECHARSET", "invalid Unicode character")
    ∷ ("ECONNABORTED", "software caused connection abort")
    ∷ ("ECONNREFUSED", "connection refused")
    ∷ ("ECONNRESET", "connection reset by peer")
    ∷ ("EDESTADDRREQ", "destination address required")
    ∷ ("EEXIST", "file already exists")
    ∷ ("EFAULT", "bad address in system call argument")
    ∷ ("EHOSTUNREACH", "host is unreachable")
    ∷ ("EINTR", "interrupted system call")
    ∷ ("EINVAL", "invalid argument")
    ∷ ("EIO", "i/o error")
    ∷ ("EISCONN", "socket is already connected")
    ∷ ("EISDIR", "illegal operation on a directory")
    ∷ ("ELOOP", "too many symbolic links encountered")
    ∷ ("EMFILE", "too many open files")
    ∷ ("EMSGSIZE", "message too long")
    ∷ ("ENAMETOOLONG", "name too long")
    ∷ ("ENETDOWN", "network is down")
    ∷ ("ENETUNREACH", "network is unreachable")
    ∷ ("ENFILE", "file table overflow")
    ∷ ("ENOBUFS", "no buffer space available")
    ∷ ("ENODEV", "no such device")
    ∷ ("ENOENT", "no such file or directory")
    ∷ ("ENOMEM", "not enough memory")
    ∷ ("ENONET", "machine is not on the network")
    ∷ ("ENOSPC", "no space left on device")
    ∷ ("ENOSYS", "function not implemented")
    ∷ ("ENOTCONN", "socket is not connected")
    ∷ ("ENOTDIR", "not a directory")
    ∷ ("ENOTEMPTY", "directory not empty")
    ∷ ("ENOTSOCK", "socket operation on non-socket")
    ∷ ("ENOTSUP", "operation not supported on socket")
    ∷ ("EPERM", "operation not permitted")
    ∷ ("EPIPE", "broken pipe")
    ∷ ("EPROTO", "protocol error")
    ∷ ("EPROTONOSUPPORT", "protocol not supported")
    ∷ ("EPROTOTYPE", "protocol wrong type for socket")
    ∷ ("EROFS", "read-only file system")
    ∷ ("ESHUTDOWN", "cannot send after transport endpoint shutdown")
    ∷ ("ESPIPE", "invalid seek")
    ∷ ("ESRCH", "no such process")
    ∷ ("ETIMEDOUT", "timed out")
    ∷ ("EXDEV", "cross-device link not permitted")
    ∷ ("UNKNOWN", "unknown error")
    ∷ ("EOF", "end of file")
    ∷ ("EX509", "X509 Certificate error")
    ∷ ("ESSL", "SSL error")
    ∷ ("EWS", "WebSocket error")
    ∷ []
