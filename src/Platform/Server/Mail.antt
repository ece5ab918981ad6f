-- ===== src/Platform/Server/Mail.antt =====
-- `SMTPMailer` of server/internal/platform/email.go.
use Prim.Native.String.{◌++◌}
use multi_desk.Base.{String, none, some, Option, ◌==◌, if◌then◌else◌}
use multi_desk.Platform.Server.{Letter}

pub record SmtpMailer : Type 0 where
  pub host : String
  pub port : String
  pub user : String
  pub pass : String
  pub from : String

-- what `Send` hands to `sendSMTP`
pub record Envelope : Type 0 where
  pub addr : String
  pub sender : String
  pub recipient : String
  pub message : String

unfoldable pub compose : SmtpMailer → Letter → Envelope
compose m l = record {
  addr = m.host ++ (":" ++ m.port);
  sender = m.from;
  recipient = l.to;
  message =
      "From: "
      ++ (m.from
          ++ ("\r\nTo: "
              ++ (l.to
                  ++ ("\r\nSubject: "
                      ++ (l.subject
                          ++ ("\r\nContent-Type: text/plain; charset=UTF-8\r\n\r\n"
                              ++ (l.text ++ "\r\n")))))));
}

-- `Send`: nothing is handed on where no host is set
unfoldable pub send : SmtpMailer → Letter → Option Envelope
send m l = if m.host == "" then none else some (compose m l)
