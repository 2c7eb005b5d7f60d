-- ===== src/Server/Safety/Uninitialised.antt =====
-- The field `client` of a new session, which init_client_session of client/client.c does not set, as
-- client_cmd_function of client_commands.c reads it.
use rc_project.Base.{◌>>=◌}
use rc_project.Server.{Server}
